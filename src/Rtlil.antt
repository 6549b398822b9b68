-- ===== src/Rtlil.antt =====
-- The data of Yosys that the code works on (kernel/rtlil.h): a SigSpec is the sequence of its bits,
-- the lowest first, and a bit is a constant state or a bit of a wire.
use yosys_slang.Base.{
  ℕ, zero, suc, ◌≡◌, ◌↔◌, arith, Bool, true, false, ◌&&◌, ◌||◌, List, [], ◌∷◌, ◌==◌, take, drop,
  replicate,
}

pub data State : Type 0 where
  s0 s1 sx sz sa sm : State

-- A wire is a number that identifies it.
pub data SigBit : Type 0 where
  state : State → SigBit
  wire_bit : ℕ → ℕ → SigBit

abbrev pub SigSpec : Type 0
SigSpec = List SigBit

abbrev pub state_number : State → ℕ
state_number s0 = 0
state_number s1 = 1
state_number sx = 2
state_number sz = 3
state_number sa = 4
state_number sm = 5

abbrev pub same_state : State → State → Bool
same_state a b = state_number a == state_number b

abbrev pub is_state : State → SigBit → Bool
is_state s (state t) = same_state s t
is_state s (wire_bit w i) = false

abbrev pub is_const_bit : SigBit → Bool
is_const_bit (state s) = true
is_const_bit (wire_bit w i) = false

-- 0 or 1.
abbrev pub is_def_bit : SigBit → Bool
is_def_bit b = is_state s0 b || is_state s1 b

abbrev pub all_bits {ℓ} : {A : Type ℓ} → (A → Bool) → List A → Bool
all_bits p [] = true
all_bits p (b ∷ l) = p b && all_bits p l

abbrev pub is_fully_const : SigSpec → Bool
is_fully_const = all_bits is_const_bit

abbrev pub is_fully_def : SigSpec → Bool
is_fully_def = all_bits is_def_bit

abbrev pub is_fully_zero : SigSpec → Bool
is_fully_zero = all_bits (is_state s0)

abbrev pub is_fully_ones : SigSpec → Bool
is_fully_ones = all_bits (is_state s1)

-- `SigSpec::extract(offset, length)`, of a list of any kind of bit.
abbrev pub cut {ℓ} : {A : Type ℓ} → List A → ℕ → ℕ → List A
cut l offset n = take n (drop offset l)

-- `SigSpec::extract_end(offset)`.
abbrev pub cut_end {ℓ} : {A : Type ℓ} → List A → ℕ → List A
cut_end l offset = drop offset l

-- The bit 1, extended by zeros to a width.
abbrev pub one_of_width : ℕ → SigSpec
one_of_width zero = []
one_of_width (suc n) = state s1 ∷ replicate n (state s0)

abbrev pub same_sigbit : SigBit → SigBit → Bool
same_sigbit (state s) (state t) = same_state s t
same_sigbit (wire_bit w i) (wire_bit u j) = w == u && i == j
same_sigbit _ _ = false

same_state_iff : (s t : State) → (same_state s t ≡ true) ↔ (s ≡ t)
same_state_iff s t = ground arith

pub same_sigbit_iff : (a b : SigBit) → (same_sigbit a b ≡ true) ↔ (a ≡ b)
same_sigbit_iff (state s) (state t) = ground (arith, same_state_iff s t)
same_sigbit_iff (wire_bit w i) (wire_bit u j) = ground arith
same_sigbit_iff (state s) (wire_bit w i) = ground arith
same_sigbit_iff (wire_bit w i) (state s) = ground arith
