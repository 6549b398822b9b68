-- ===== src/Builder/Examples.antt =====
-- Tests of src/builder.cc at concrete signals.
use yosys_slang.Base.{
  All, arith, List, ◌≡◌, refl, Bool, true, false, some, [], ◌∷◌, if◌then◌else◌, replicate,
}
use yosys_slang.Rtlil.{State, s0, s1, SigBit, SigSpec, state, wire_bit, one_of_width}
use yosys_slang.Builder.MemoryInit.{
  Memory, MeminitCell, EndsBy, add_memory_init, add_memory_init_short,
}
use yosys_slang.Builder.ThreeValued.{
  IsValuation, and_lit, or_lit, not_lit, xor_lit, xnor_lit, carry_lit, convert,
}
use yosys_slang.Base.Int.{neg}
use yosys_slang.Builder.Compare.{le, lt, fold_compare, fold_answer, ConstCompare, biop_compare}
use yosys_slang.Builder.Compare.Laws.{fold_compare_lem, operand_value, number, holds}
use yosys_slang.Builder.Compare.Wrap.{biop_compare_wrong, topped}

-- Every wire is 1.
abbrev all_ones : SigBit → Bool
all_ones (state s0) = false
all_ones _ = true

all_ones-IsValuation : IsValuation all_ones
all_ones-IsValuation = record { of_s0 = refl; of_s1 = refl }

-- `{0, w} <= {0, 1}`.
abbrev small_left : SigSpec
small_left = wire_bit 0 0 ∷ state s0 ∷ []

abbrev small_right : SigSpec
small_right = state s1 ∷ state s0 ∷ []

fold_compare_lem_example : one_of_width 1 ≡ (
    if holds le
      (number (operand_value all_ones small_left false) 2)
      (number (operand_value all_ones small_right false) 2)
    then one_of_width 1
    else replicate 1 (state s0))
unfolding fold_compare fold_answer xor_lit xnor_lit carry_lit and_lit or_lit not_lit convert neg
fold_compare_lem_example =
    fold_compare_lem all_ones le small_left small_right false false 1 (one_of_width 1)
      all_ones-IsValuation refl refl

-- Constants that are compared give 0.
abbrev no_compare : ConstCompare
no_compare op a b sa sb w = replicate w (state s0)

biop_compare_wrong_example :
    biop_compare no_compare lt
      (topped (wire_bit 0 0 ∷ []) (state s1))
      (topped (wire_bit 1 0 ∷ []) (state s0))
      false
      false
      1
    ≡ some (one_of_width 1)
biop_compare_wrong_example =
    (biop_compare_wrong no_compare all_ones (wire_bit 0 0 ∷ []) (wire_bit 1 0 ∷ []) 1
      all_ones-IsValuation refl refl).0

-- Words of four bits, of which data of six bits begin the third.
abbrev memory : Memory
memory = record { width = 4; size = 8; start_offset = 1 }

abbrev six_bits : List State
six_bits = s1 ∷ s0 ∷ s1 ∷ s0 ∷ s1 ∷ s1 ∷ []

add_memory_init_short_example :
    (cells : List MeminitCell) × (add_memory_init memory 8 false six_bits ≡ some cells)
    × All (EndsBy 4) cells
add_memory_init_short_example =
    add_memory_init_short memory 2 1 2 six_bits (omega arith) (omega arith) (omega arith)
      (omega arith) refl
