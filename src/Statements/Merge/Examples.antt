-- ===== src/Statements/Merge/Examples.antt =====
-- A switch of two branches, one of which declares a variable of its own.
use yosys_slang.Base.{ℕ, ◌≡◌, refl, Bool, true, false, ◌==◌, some, List, [], ◌∷◌, arith}
use yosys_slang.Rtlil.{SigBit, s0, s1, state, wire_bit, same_sigbit_iff}
use yosys_slang.Variables.{
  Symbol, static, local, VariableBit, bits, expand, same_bit, same_variable,
}
use yosys_slang.Variables.Order.{less_bit, less_variable, sort_list, insert_bit}
use yosys_slang.Variables.Views.{same_bit_iff}
use yosys_slang.State.{VariableState, lookup, insert, evaluate_chunk_bit, values_at}
use yosys_slang.Procedural.{has_variable}
use yosys_slang.Statements.Merge.Defs.{Merged, Updates, eos_variables, finish_values}
use yosys_slang.Statements.Merge.Nets.{flat, last_source}
use yosys_slang.Statements.Merge.Meaning.{finish_values_lem}
use yosys_slang.Statements.Merge.Total.{finish_values-total}

abbrev rank : Symbol → ℕ
rank s = s

-- All variables are of one wire.
abbrev signal : Symbol → ℕ → SigBit
signal s i = wire_bit 7 i

abbrev bit_a : VariableBit
bit_a = record { variable = static 0; offset = 3 }

abbrev bit_b : VariableBit
bit_b = record { variable = local 1 1; offset = 0 }

-- The values before and behind the branches, and at the end of the first one.
abbrev before : VariableState
before = record { visible_assignments = (bit_a, state s0) ∷ []; revert = [] }

abbrev inner : VariableState
inner = record { visible_assignments = (bit_a, state s1) ∷ []; revert = (bit_a, state s0) ∷ [] }

abbrev branches : List Updates
branches = (bits (bit_a ∷ []), state s1 ∷ []) ∷ (bits (bit_b ∷ []), state s0 ∷ []) ∷ []

abbrev merged : Merged
merged = record {
  result = record {
    vstate = record {
      visible_assignments = (bit_a, wire_bit 100 0) ∷ [];
      revert = (bit_a, state s0) ∷ [];
    };
    next_wire = 101;
    defaults = (wire_bit 100 0 ∷ [], state s0 ∷ []) ∷ [];
  };
  branches = ((wire_bit 100 0 ∷ [], state s1 ∷ []) ∷ []) ∷ [] ∷ [];
}

-- The placeholder is 1, as where the first branch is taken.
abbrev value : SigBit → Bool
value (state s1) = true
value (state s) = false
value (wire_bit w i) = w == 100

finish_values_lem_example :
    (x : SigBit) × (evaluate_chunk_bit signal merged.result.vstate bit_a ≡ some x)
    × (value x ≡ value (state s1))
unfolding finish_values lookup evaluate_chunk_bit values_at expand same_bit sort_list insert_bit
    insert has_variable eos_variables flat last_source less_bit less_variable
finish_values_lem_example =
    finish_values_lem value signal rank before 100 branches merged (λ b k j h. ground (arith, h))
      (λ i o k j h. ground (arith, h)) refl 0 (bits (bit_a ∷ [])) (state s1 ∷ [])
      ((wire_bit 100 0 ∷ [], state s1 ∷ []) ∷ []) inner refl refl refl (λ b h. ground (arith, h))
      (λ w d h. ground (arith, h, same_sigbit_iff (wire_bit 100 0) w)) bit_a (state s1) refl refl

finish_values-total_example :
    (r : Merged) × (finish_values signal rank before 100 branches ≡ some r)
unfolding eos_variables lookup expand same_bit sort_list insert_bit less_bit less_variable
    has_variable same_variable
finish_values-total_example =
    finish_values-total signal rank before 100 branches
      (λ b h. ground (arith, h, same_bit_iff bit_a b))
