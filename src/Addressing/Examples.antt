-- ===== src/Addressing/Examples.antt =====
-- Tests of src/addressing.cc at concrete selects.
use yosys_slang.Base.{
  ℕ, zero, suc, ◌^◌, ◌-◌, ap, ◌<◌, ◌≡◌, refl, Bool, true, false, none, some, List, [], ◌∷◌, arith,
  length, map, ◌∙◌, get_elem?,
}
use yosys_slang.Base.Int.{
  ℤ, pos, negsuc, ◌+ℤ◌, ◌-ℤ◌, ◌*ℤ◌, neg, clamp, to_int, int_bits, of_int_bits, at_or, int_laws,
}
use yosys_slang.Rtlil.{State, s0, s1, sx}
use yosys_slang.Variables.{static, VariableBits, chunk, unpack}
use yosys_slang.Addressing.Select.{
  Resolver, extract_variables, extract_signal, embed, static_offset,
}
use yosys_slang.Addressing.Static.{extract_signal_lem, embed_lem, extract_variables-signal, visible}
use yosys_slang.Addressing.Shift.{Shifter, shift_down, shift_up}
use yosys_slang.Addressing.Shift.Laws.{shift_down-extract, shift_up-embed}

-- `v[raw - 3 +: ...]` with elements of two bits.
abbrev pairs : ℤ → Bool → Resolver
pairs index is_const = record {
  base_offset = negsuc 2;
  stride = 2;
  raw_value = index;
  is_static = is_const;
}

abbrev four_bits : List State
four_bits = s1 ∷ s0 ∷ s1 ∷ s1 ∷ []

-- A shifter, bit by bit.
shift_bits : List State → ℤ → ℕ → List State
shift_bits a v zero = []
shift_bits a v (suc n) = at_or sx a v ∷ shift_bits a (v +ℤ pos 1) n

length-shift_bits : (a : List State) (v : ℤ) (w : ℕ) → length (shift_bits a v w) ≡ w
unfolding shift_bits
length-shift_bits a v zero = refl
length-shift_bits a v (suc n) = ap suc (length-shift_bits a (v +ℤ pos 1) n)

shift_bits_bit :
    (a : List State) (v : ℤ) (w j : ℕ)
    → j < w
    → get_elem? (shift_bits a v w) j ≡ some (at_or sx a (v +ℤ pos j))
unfolding shift_bits
shift_bits_bit a v zero j h = elim h [ ]
shift_bits_bit a v (suc n) zero h = ap (λ k. some (at_or sx a k)) {x = v} (omega int_laws)
shift_bits_bit a v (suc n) (suc j) h =
    shift_bits_bit a (v +ℤ pos 1) n j (omega arith)
    ∙ ap (λ k. some (at_or sx a k)) {x = v +ℤ pos 1 +ℤ pos j} (omega int_laws)

abbrev shifter : Shifter State
shifter = record {
  fill = sx;
  shift = shift_bits;
  length_shift = length-shift_bits;
  shift_bit = shift_bits_bit;
}

extract_signal_lem_example :
    (ret : List State) × (extract_signal sx (pairs (pos 2) true) four_bits 4 ≡ some ret)
    × (length ret ≡ 4)
    × ((j : ℕ)
        → j < 4
        → get_elem? ret j
          ≡ some (at_or sx four_bits (static_offset (pairs (pos 2) true) *ℤ pos 2 +ℤ pos j)))
extract_signal_lem_example = extract_signal_lem sx (pairs (pos 2) true) four_bits 4 refl

-- The element below the range is `x`, then the two lowest bits follow.
extract_signal_run :
    extract_signal sx (pairs (pos 2) true) four_bits 4 ≡ some (sx ∷ sx ∷ s1 ∷ s0 ∷ [])
unfolding extract_signal static_offset to_int int_bits of_int_bits clamp neg ◌+ℤ◌ ◌-ℤ◌ ◌*ℤ◌
extract_signal_run = refl

embed_lem_example :
    (ret : List State) × (embed s0 (pairs (pos 4) true) four_bits 8 ≡ some ret)
    × (length ret ≡ 8)
    × ((j : ℕ)
        → j < 8
        → get_elem? ret j
          ≡ some (at_or s0 four_bits (neg (static_offset (pairs (pos 4) true) *ℤ pos 2) +ℤ pos j)))
unfolding static_offset to_int int_bits of_int_bits ◌+ℤ◌ ◌*ℤ◌
embed_lem_example = embed_lem s0 (pairs (pos 4) true) four_bits 8 refl (omega arith, omega arith)

embed_run :
    embed s0 (pairs (pos 4) true) four_bits 8 ≡ some (s0 ∷ s0 ∷ s1 ∷ s0 ∷ s1 ∷ s1 ∷ s0 ∷ s0 ∷ [])
unfolding embed static_offset to_int int_bits of_int_bits clamp neg ◌+ℤ◌ ◌-ℤ◌ ◌*ℤ◌
embed_run = refl

abbrev six_variables : VariableBits
six_variables = chunk (record { variable = static 7; base = 0; length = 6 })

extract_variables-signal_example :
    (ret : VariableBits) × (extract_variables (pairs (pos 2) true) six_variables 4 ≡ some ret)
    × (extract_signal none (pairs (pos 2) true) (map visible (unpack six_variables)) 4
        ≡ some (map visible (unpack ret)))
extract_variables-signal_example =
    extract_variables-signal (pairs (pos 2) true) six_variables 4 refl

-- An unsigned index of 32 bits that are 1 is read as -1 where it is constant.
wide_index :
    extract_signal sx (record (pairs (pos (2 ^ 32 - 1)) true) { base_offset = pos 0 }) four_bits 4
    ≡ some (sx ∷ sx ∷ s1 ∷ s0 ∷ [])
unfolding extract_signal static_offset to_int int_bits of_int_bits clamp neg ◌+ℤ◌ ◌-ℤ◌ ◌*ℤ◌
wide_index = refl

shift_down-extract_example :
    shift_down shifter (pairs (pos 4) false) four_bits 2
    ≡ extract_signal sx (pairs (pos 4) true) four_bits 2
unfolding ◌+ℤ◌
shift_down-extract_example =
    shift_down-extract shifter (pairs (pos 4) false) four_bits 2 (omega arith)
      (omega arith, omega arith) (omega arith, omega arith)

shift_up-embed_example :
    shift_up shifter (pairs (pos 4) false) four_bits 8 ≡ embed sx (pairs (pos 4) true) four_bits 8
unfolding ◌+ℤ◌ ◌*ℤ◌
shift_up-embed_example =
    shift_up-embed shifter (pairs (pos 4) false) four_bits 8 (omega arith)
      (omega arith, omega arith) (omega arith, omega arith) (omega arith, omega arith)
