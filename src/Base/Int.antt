-- ===== src/Base/Int.antt =====
-- Signed integers (C++ `int`, `int64_t`) over the native numbers: sums and orders go through the
-- two parts of an integer, which are numbers that `omega` reads.
use native.Mathlib.Nat.{mod-eq_of_lt}
use yosys_slang.Base.{
  ◌^◌, ◌%◌, ℕ, zero, suc, ◌+◌, ◌-◌, ◌*◌, ◌≤◌, min, ◌≡◌, refl, ◌⊎◌, inl, inr, Bool, arith, ltb, leb,
  ◌==◌, ◌&&◌, if◌then◌else◌, List, ◌++◌, replicate, get_or, ap, sym, ◌∙◌, ◌<◌, dec_lt,
  get_or-replicate_low, get_or-replicate_high,
}

-- `negsuc n` is -(n + 1).
pub data ℤ : Type 0 where
  pos : ℕ → ℤ
  negsuc : ℕ → ℤ

abbrev pub pos_part : ℤ → ℕ
pos_part (pos n) = n
pos_part (negsuc n) = 0

abbrev pub neg_part : ℤ → ℕ
neg_part (pos n) = 0
neg_part (negsuc n) = suc n

-- a - b, as an integer.
abbrev pub sub_ℕ : ℕ → ℕ → ℤ
sub_ℕ a b = if leb b a then pos (a - b) else negsuc (b - a - 1)

infixl 65 ◌+ℤ◌ ◌-ℤ◌
infixl 70 ◌*ℤ◌
infix 50 ◌≤ℤ◌
unfoldable pub ◌+ℤ◌ : ℤ → ℤ → ℤ
a +ℤ b = sub_ℕ (pos_part a + pos_part b) (neg_part a + neg_part b)

unfoldable pub ◌-ℤ◌ : ℤ → ℤ → ℤ
a -ℤ b = sub_ℕ (pos_part a + neg_part b) (neg_part a + pos_part b)

unfoldable pub ◌*ℤ◌ : ℤ → ℤ → ℤ
a *ℤ b =
    sub_ℕ (pos_part a * pos_part b + neg_part a * neg_part b)
      (pos_part a * neg_part b + neg_part a * pos_part b)

unfoldable pub neg : ℤ → ℤ
neg a = sub_ℕ (neg_part a) (pos_part a)

abbrev pub ◌≤ℤ◌ : ℤ → ℤ → Type 0
a ≤ℤ b = pos_part a + neg_part b ≤ pos_part b + neg_part a

abbrev pub ltb_ℤ : ℤ → ℤ → Bool
ltb_ℤ a b = ltb (pos_part a + neg_part b) (pos_part b + neg_part a)

abbrev pub eqb_ℤ : ℤ → ℤ → Bool
eqb_ℤ a b = pos_part a + neg_part b == pos_part b + neg_part a

-- `std::clamp(a, 0, n)`, which is a natural number.
unfoldable pub clamp : ℤ → ℕ → ℕ
clamp (pos a) n = if ltb n a then n else a
clamp (negsuc a) n = 0

-- The 32 bits of an `int`, as a number and as an integer.
unfoldable pub int_bits : ℤ → ℕ
int_bits (pos n) = n % 2 ^ 32
int_bits (negsuc n) = 2 ^ 32 - 1 - n % 2 ^ 32

unfoldable pub of_int_bits : ℕ → ℤ
of_int_bits u = if ltb u (2 ^ 31) then pos u else negsuc (2 ^ 32 - 1 - u)

-- What an `int` of 32 bits keeps of an integer.
unfoldable pub to_int : ℤ → ℤ
unfolding int_bits of_int_bits
to_int a = of_int_bits (int_bits a)

abbrev pub IsInt : ℤ → Type 0
IsInt a = (pos_part a < 2 ^ 31) × (neg_part a ≤ 2 ^ 31)

pub to_int-IsInt : (a : ℤ) → IsInt a → to_int a ≡ a
unfolding to_int int_bits of_int_bits
to_int-IsInt (pos n) (h, k) = rw (mod-eq_of_lt {n = n} {m = 2 ^ 32} (omega arith)) (ground arith)
to_int-IsInt (negsuc n) (h, k) = rw (mod-eq_of_lt {n = n} {m = 2 ^ 32} (omega arith)) (ground arith)

-- One lemma for each operation lets `omega` work with the operations shut, at any depth.
pub +ℤ_parts :
    (a b : ℤ)
    → pos_part (a +ℤ b) + neg_part a + neg_part b ≡ neg_part (a +ℤ b) + pos_part a + pos_part b
unfolding ◌+ℤ◌
+ℤ_parts a b = ground arith

pub -ℤ_parts :
    (a b : ℤ)
    → pos_part (a -ℤ b) + neg_part a + pos_part b ≡ neg_part (a -ℤ b) + pos_part a + neg_part b
unfolding ◌-ℤ◌
-ℤ_parts a b = ground arith

pub neg_parts : (a : ℤ) → pos_part (neg a) + pos_part a ≡ neg_part (neg a) + neg_part a
unfolding neg
neg_parts a = ground arith

pub eq_of_parts : (a b : ℤ) → pos_part a + neg_part b ≡ pos_part b + neg_part a → a ≡ b
eq_of_parts a b h = ground arith

pub clamp-min : (a : ℤ) (n : ℕ) → clamp a n ≡ min (pos_part a) n
unfolding clamp
clamp-min (pos a) n = ground arith
clamp-min (negsuc a) n = omega arith

pub one_part_zero : (a : ℤ) → (pos_part a ≡ 0) ⊎ (neg_part a ≡ 0)
one_part_zero (pos a) = inr refl
one_part_zero (negsuc a) = inl refl

pub pos_part-+ℤ :
    (a b : ℤ) → pos_part (a +ℤ b) ≡ pos_part a + pos_part b - (neg_part a + neg_part b)
unfolding ◌+ℤ◌
pos_part-+ℤ a b = ground arith

pub pos_part--ℤ :
    (a b : ℤ) → pos_part (a -ℤ b) ≡ pos_part a + neg_part b - (neg_part a + pos_part b)
unfolding ◌-ℤ◌
pos_part--ℤ a b = ground arith

pub pos_part-neg : (a : ℤ) → (pos_part (neg a) ≡ neg_part a) × (neg_part (neg a) ≡ pos_part a)
unfolding neg
pos_part-neg (pos zero) = (omega arith, omega arith)
pos_part-neg (pos (suc n)) = ground arith
pos_part-neg (negsuc a) = ground arith

pub *ℤ-pos :
    (a : ℤ) (s : ℕ)
    → (pos_part (a *ℤ pos s) ≡ pos_part a * s) × (neg_part (a *ℤ pos s) ≡ neg_part a * s)
unfolding ◌*ℤ◌
*ℤ-pos (pos n) s = (grind arith, grind arith)
*ℤ-pos (negsuc n) s = (grind arith, grind arith)

pub ruleset int_laws = (arith, +ℤ_parts, -ℤ_parts, neg_parts, eq_of_parts)

-- The member of a list at a signed place, and `x` where there is none.
module _ {ℓ} {A : Type ℓ} where
  abbrev pub at_or : A → List A → ℤ → A
  at_or x l (pos n) = get_or l n x
  at_or x l (negsuc n) = x

  pub at_or_in :
      (x : A) (l : List A) (a : ℤ) (n : ℕ)
      → pos_part a ≡ neg_part a + n
      → at_or x l a ≡ get_or l n x
  at_or_in x l (pos m) n h = ap (λ k. get_or l k x) (omega arith)
  at_or_in x l (negsuc m) n h = absurd (omega arith)

  pub at_or_below : (x : A) (l : List A) (a : ℤ) → pos_part a < neg_part a → at_or x l a ≡ x
  at_or_below x l (pos m) h = absurd (omega arith)
  at_or_below x l (negsuc m) h = refl

  -- Padding a list below moves its members up.
  pub at_or_padded :
      (n : ℕ) (x : A) (l : List A) (a : ℤ) → at_or x (replicate n x ++ l) a ≡ at_or x l (a -ℤ pos n)
  at_or_padded n x l (pos m) = elim (dec_lt m n) [
    | yes h ↦
        get_or-replicate_low n x l m h
        ∙ sym (
            at_or_below x l (pos m -ℤ pos n)
              (omega (arith, -ℤ_parts (pos m) (pos n), one_part_zero (pos m -ℤ pos n))))
    | no h ↦
        ap (λ k. get_or (replicate n x ++ l) k x) {x = m} {y = n + (m - n)} (omega arith)
        ∙ get_or-replicate_high n x l (m - n)
        ∙ sym (at_or_in x l (pos m -ℤ pos n) (m - n) (omega (arith, -ℤ_parts (pos m) (pos n))))
  ]
  at_or_padded n x l (negsuc m) = sym (
      at_or_below x l (negsuc m -ℤ pos n)
        (omega (arith, -ℤ_parts (negsuc m) (pos n), one_part_zero (negsuc m -ℤ pos n))))
