-- ===== src/Variables/Examples.antt =====
-- Tests of src/variables.h at concrete bits.
use yosys_slang.Base.{◌≡◌, ◌⊎◌, refl, false, List, [], ◌∷◌, ◌++◌, arith, take, drop, some}
use yosys_slang.Variables.Bits.{
  kind_number, same_bit, static, local, VariableBit, VariableBits, chunk, bits, unpack, bitwidth,
  append, extract, same_bits, chunk_spans, of_variable,
}
use yosys_slang.Variables.Views.{unpack-append, unpack-extract}
use yosys_slang.Variables.Chunks.{chunk_spans_lem, span_bits}
use yosys_slang.Variables.Order.{
  less_variable, less_bit, insert_bit, sort_list, unique_after, sort_and_unify,
}
use yosys_slang.Variables.Sorting.{less_variable-total, sort_and_unify_lem, SameLocal, IsAscending}

-- Two bits of a static variable, then one of another.
abbrev low_part : VariableBits
low_part = chunk (record { variable = static 3; base = 4; length = 2 })

abbrev next_part : VariableBits
next_part = chunk (record { variable = static 3; base = 6; length = 2 })

abbrev mixed_bits : List VariableBit
mixed_bits =
    record { variable = static 3; offset = 4 }
    ∷ record { variable = static 3; offset = 5 }
    ∷ record { variable = static 1; offset = 0 }
    ∷ []

append_joins :
    append low_part next_part ≡ chunk (record { variable = static 3; base = 4; length = 4 })
unfolding append
append_joins = refl

-- Two empty chunks of distinct variables are not equal for `operator==`.
empty_differ : same_bits (of_variable (static 0) 0) (of_variable (static 1) 0) ≡ false
unfolding same_bits of_variable
empty_differ = refl

-- Bits of two nest levels of one local stay apart, and are not sorted apart.
keeps_duplicate :
    sort_and_unify
      (λ s. s)
      (bits (
        record { variable = local 5 0; offset = 0 }
        ∷ record { variable = local 5 1; offset = 0 }
        ∷ record { variable = local 5 0; offset = 0 }
        ∷ []))
    ≡ bits (
        record { variable = local 5 0; offset = 0 }
        ∷ record { variable = local 5 1; offset = 0 }
        ∷ record { variable = local 5 0; offset = 0 }
        ∷ [])
unfolding sort_and_unify unpack less_variable less_bit sort_list insert_bit unique_after same_bit
keeps_duplicate = refl

unpack-append_example : unpack (append low_part (bits mixed_bits)) ≡ unpack low_part ++ mixed_bits
unfolding unpack
unpack-append_example = unpack-append low_part (bits mixed_bits)

unpack-extract_example :
    (r : VariableBits) × (extract (bits mixed_bits) 1 2 ≡ some r)
    × (unpack r ≡ take 2 (drop 1 mixed_bits))
unfolding unpack bitwidth
unpack-extract_example = unpack-extract (bits mixed_bits) 1 2 (omega arith)

chunk_spans_lem_example : span_bits (chunk_spans (bits mixed_bits)) ≡ mixed_bits
unfolding unpack
chunk_spans_lem_example = (chunk_spans_lem (bits mixed_bits)).0

less_variable-total_example : (local 5 0 ≡ local 5 1) ⊎ SameLocal (local 5 0) (local 5 1)
unfolding less_variable
less_variable-total_example =
    less_variable-total (λ s. s) (λ s t e. e) (local 5 0) (local 5 1) refl refl

sort_and_unify_lem_example :
    IsAscending (λ s. s) (unpack (sort_and_unify (λ s. s) (bits mixed_bits)))
unfolding unpack kind_number
sort_and_unify_lem_example =
    (sort_and_unify_lem (λ s. s) (λ s t e. e) (bits mixed_bits) (omega arith)).0
