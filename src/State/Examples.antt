-- ===== src/State/Examples.antt =====
-- A branch run on concrete bits.
use yosys_slang.Base.{◌≡◌, refl, false, some, List, [], ◌∷◌, arith}
use yosys_slang.Variables.{
  VariableBit, VariableBits, static, local, bits, bitwidth, unpack, same_bit,
}
use yosys_slang.Variables.Sorting.{contains}
use yosys_slang.Rtlil.{SigSpec, s0, s1, sm, state, wire_bit}
use yosys_slang.State.Defs.{
  lookup, insert, VariableState, set_bit, set_bits, note_revert, set, save, values_at, restore,
}
use yosys_slang.State.Branch.{set_all, restore_lem}

abbrev bit_a : VariableBit
bit_a = record { variable = static 0; offset = 0 }

abbrev bit_b : VariableBit
bit_b = record { variable = local 1 1; offset = 3 }

abbrev outer : VariableState
outer = record { visible_assignments = (bit_a, state s1) ∷ []; revert = (bit_a, state sm) ∷ [] }

abbrev assignments : List (VariableBits × SigSpec)
assignments =
    (bits (bit_a ∷ bit_b ∷ []), state s0 ∷ wire_bit 7 0 ∷ [])
    ∷ (bits (bit_b ∷ []), state s1 ∷ [])
    ∷ []

abbrev inner : VariableState
inner = record {
  visible_assignments = (bit_a, state s0) ∷ (bit_b, state s1) ∷ [];
  revert = (bit_a, state s1) ∷ (bit_b, state sm) ∷ [];
}

restore_lem_example :
    (u : VariableState) × (lhs : VariableBits) × (value : SigSpec) × (restore
        (λ s. s)
        inner
        (save outer []).1
      ≡ some (u, inner.revert, lhs, value))
    × (u.revert ≡ outer.revert)
    × ((k : VariableBit) → lookup k u.visible_assignments ≡ lookup k outer.visible_assignments)
    × ((k : VariableBit)
        → contains k (unpack lhs) ≡ false
        → lookup k inner.visible_assignments ≡ lookup k outer.visible_assignments)
    × (values_at inner.visible_assignments (unpack lhs) ≡ some value)
unfolding set_all set set_bits set_bit note_revert lookup insert save same_bit unpack bitwidth
restore_lem_example = restore_lem (λ s. s) outer inner assignments (λ k v e. ground arith) refl
