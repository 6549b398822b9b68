-- ===== src/Cases/Examples.antt =====
-- A process's tree of cases, lowered and given its latch signals.
use yosys_slang.Base.{◌≡◌, refl, Bool, false, none, some, List, [], ◌∷◌, arith, if◌then◌else◌}
use yosys_slang.Rtlil.{SigBit, SigSpec, State, s0, s1, state, wire_bit}
use yosys_slang.Variables.{VariableBit, static, bits, same_bit}
use yosys_slang.Variables.Views.{same_bit_iff}
use yosys_slang.Cases.{
  SigSig, Action, Case, make_case, make_switch, no_switch, add_switch, no_case, add_case,
  lower_case,
}
use yosys_slang.Cases.Flatten.{run_case, run_case_rule, lower_case_lem}
use yosys_slang.Cases.Latch.{Mapping, insert_latch_signaling}
use yosys_slang.Cases.Latch.Intent.{assign, selects, intent_case}
use yosys_slang.Cases.Latch.Order.{IsSeparate, insert_latch_signaling_lem}

abbrev bit_a : VariableBit
bit_a = record { variable = static 0; offset = 0 }

abbrev write : SigBit → SigBit → Action
write m v = record { lvalue = bits (bit_a ∷ []); mask = m ∷ []; unmasked_rvalue = v ∷ [] }

-- A masked write between two full ones, around a trivial switch.
abbrev tree : Case
tree =
    make_case none [] (write (state s1) (state s0) ∷ write (wire_bit 5 0) (state s1) ∷ [])
      (add_switch
        (make_switch none []
          (add_case
            (make_case none [] (write (state s1) (wire_bit 6 0) ∷ []) no_switch
              ((wire_bit 3 0 ∷ [], state s1 ∷ []) ∷ []))
            no_case)
          false false)
        no_switch)
      []

abbrev value_of : SigBit → State
value_of (state s) = s
value_of (wire_bit w i) = s1

abbrev record_write : SigSig → List SigSig → List SigSig
record_write a l = a ∷ l

abbrev is_one : SigSpec → SigSpec → Bool
is_one signal value = false

lower_case_lem_example :
    run_case_rule record_write is_one (lower_case tree) [] ≡ run_case record_write is_one tree []
lower_case_lem_example = lower_case_lem record_write is_one tree []

-- Enable and staging signal of the one latched bit.
unfoldable mapping : Mapping
mapping b = if same_bit bit_a b then some (wire_bit 1 0, wire_bit 2 0) else none

mapping-IsSeparate : IsSeparate mapping
unfolding mapping
mapping-IsSeparate a b p q h k = ground (arith, same_bit_iff bit_a a, same_bit_iff bit_a b)

insert_latch_signaling_lem_example :
    run_case
      (assign value_of (wire_bit 2 0))
      (selects value_of (wire_bit 2 0))
      (insert_latch_signaling (λ s. s) mapping tree)
      s0
    ≡ intent_case value_of (wire_bit 2 0) mapping tree s0
insert_latch_signaling_lem_example =
    insert_latch_signaling_lem (λ s. s) value_of (wire_bit 2 0) mapping mapping-IsSeparate tree s0
      (λ s. refl)
