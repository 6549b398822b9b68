-- ===== src/Builder/Compare/Laws.antt =====
-- src/builder.cc, `RTLILBuilder::Biop`: the folding of a comparison, and the numbers that
-- the operands stand for.
use yosys_slang.Base.{
  ℕ, zero, suc, ◌+◌, ◌-◌, ◌*◌, ◌^◌, ◌<◌, ◌≡◌, refl, sym, Bool, true, false, not, arith, ltb, leb,
  if◌then◌else◌, some, [], ◌∷◌, length, replicate, max,
}
use native.Mathlib.Nat.{pow-suc}
use yosys_slang.Base.Int.{ℤ, pos, negsuc}
use yosys_slang.Builder.ThreeValued.{
  Describes, Describes-eq, IsValuation, convert, convert-Describes, xor_lit, xnor_lit,
  carry_lit-Describes, not_lit-Describes, xor_lit-Describes, xnor_lit-Describes, majority, differ,
}
use yosys_slang.Builder.Compare.{
  CompareOp, le, lt, gt, ge, carry_chain, compare_bits, operand_bit, fold_answer, fold_compare,
}
use yosys_slang.Rtlil.{s0, SigBit, SigSpec, state, one_of_width}

abbrev pub bit_value : Bool → ℕ
bit_value true = 1
bit_value false = 0

-- The number that the `n` lowest bits make.
unfoldable pub number : (ℕ → Bool) → ℕ → ℕ
number a zero = 0
number a (suc n) = number a n + bit_value (a n) * 2 ^ n

pub bit_times : (b : Bool) (m : ℕ) → bit_value b * m ≡ (if b then m else 0)
bit_times true m = omega arith
bit_times false m = omega arith

pub number-lt : (a : ℕ → Bool) (n : ℕ) → number a n < 2 ^ n
unfolding number
number-lt a zero = omega arith
number-lt a (suc n) = ground (arith, number-lt a n, pow-suc 2 n, bit_times (a n) (2 ^ n))

-- The carry after `n` bits: whether the low part of `b` is at most (or less than) that of `a`.
abbrev low_carry : (ℕ → Bool) → (ℕ → Bool) → Bool → ℕ → Bool
low_carry a b true n = leb (number b n) (number a n)
low_carry a b false n = ltb (number b n) (number a n)

low_carry-suc :
    (a b : ℕ → Bool) (c : Bool) (n : ℕ)
    → majority (a n) (not (b n)) (low_carry a b c n) ≡ low_carry a b c (suc n)
unfolding number
low_carry-suc a b true n =
    ground (arith, number-lt a n, number-lt b n, bit_times (a n) (2 ^ n), bit_times (b n) (2 ^ n))
low_carry-suc a b false n =
    ground (arith, number-lt a n, number-lt b n, bit_times (a n) (2 ^ n), bit_times (b n) (2 ^ n))

carry_chain-Describes :
    (la lb : ℕ → ℤ) (a b : ℕ → Bool) (lc : ℤ) (c : Bool) (n : ℕ)
    → ((i : ℕ) → Describes (la i) (a i))
    → ((i : ℕ) → Describes (lb i) (b i))
    → Describes lc (low_carry a b c 0)
    → Describes (carry_chain la lb lc n) (low_carry a b c n)
unfolding carry_chain
carry_chain-Describes la lb a b lc c zero h k m = m
carry_chain-Describes la lb a b lc c (suc n) h k m = rw (← low_carry-suc a b c n) (
    carry_lit-Describes _ _ _ _ _ _ (h n) (not_lit-Describes _ _ (k n))
      (carry_chain-Describes la lb a b lc c n h k m))

-- What the operator says of two numbers.
abbrev pub holds : CompareOp → ℕ → ℕ → Bool
holds le m n = leb m n
holds lt m n = ltb m n
holds gt m n = ltb n m
holds ge m n = leb n m

-- The answer of the loop, the operands in the order of the subtraction.
borrow_lem :
    (a b : ℕ → Bool) (c : Bool) (n : ℕ)
    → a n ≡ b n
    → differ (low_carry a b c n) (not (differ (a n) (b n))) ≡ not (low_carry a b c (suc n))
unfolding number
borrow_lem a b true n e = ground (arith, bit_times (a n) (2 ^ n), bit_times (b n) (2 ^ n))
borrow_lem a b false n e = ground (arith, bit_times (a n) (2 ^ n), bit_times (b n) (2 ^ n))

compare_core :
    (la lb : ℕ → ℤ) (a b : ℕ → Bool) (lc : ℤ) (c : Bool) (n : ℕ)
    → ((i : ℕ) → Describes (la i) (a i))
    → ((i : ℕ) → Describes (lb i) (b i))
    → Describes lc (low_carry a b c 0)
    → a n ≡ b n
    → Describes
        (xor_lit (carry_chain la lb lc n) (xnor_lit (la n) (lb n)))
        (not (low_carry a b c (suc n)))
compare_core la lb a b lc c n h k m e = rw (← borrow_lem a b c n e) (
    xor_lit-Describes _ _ _ _ (carry_chain-Describes la lb a b lc c n h k m)
      (xnor_lit-Describes _ _ _ _ (h n) (k n)))

first_set : (a b : ℕ → Bool) → Describes (pos 1) (low_carry a b true 0)
unfolding number
first_set a b = record { known_true = ground arith; known_false = ground arith }

first_clear : (a b : ℕ → Bool) → Describes (negsuc 0) (low_carry a b false 0)
unfolding number
first_clear a b = record { known_true = ground arith; known_false = ground arith }

-- The literals of the operands describe their bits. Where the top bits are equal, an answer of the
-- loop is the answer of the operator on the numbers that the bits make.
pub compare_bits_lem :
    (op : CompareOp) (la lb : ℕ → ℤ) (a b : ℕ → Bool) (n : ℕ)
    → ((i : ℕ) → Describes (la i) (a i))
    → ((i : ℕ) → Describes (lb i) (b i))
    → a n ≡ b n
    → Describes (compare_bits op la lb n) (holds op (number a (suc n)) (number b (suc n)))
unfolding compare_bits
compare_bits_lem le la lb a b n h k e =
    Describes-eq _ _ _ (ground arith)
      (compare_core la lb a b (negsuc 0) false n h k (first_clear a b) e)
compare_bits_lem lt la lb a b n h k e =
    Describes-eq _ _ _ (ground arith) (compare_core la lb a b (pos 1) true n h k (first_set a b) e)
compare_bits_lem gt la lb a b n h k e =
    Describes-eq _ _ _ (ground arith)
      (compare_core lb la b a (pos 1) true n k h (first_set b a) (sym e))
compare_bits_lem ge la lb a b n h k e =
    Describes-eq _ _ _ (ground arith)
      (compare_core lb la b a (negsuc 0) false n k h (first_clear b a) (sym e))

-- The constant for an answer is the constant for what it describes.
answer_lem :
    (result : ℤ) (b : Bool) (w : ℕ) (ret : SigSpec)
    → Describes result b
    → fold_answer result w ≡ some ret
    → ret ≡ (if b then one_of_width w else replicate w (state s0))
unfolding fold_answer
answer_lem result b w ret d e = ground arith

-- The bits of an operand under a valuation, the extension included.
abbrev pub operand_value : (SigBit → Bool) → SigSpec → Bool → ℕ → Bool
operand_value value a signed i = value (operand_bit a signed i)

-- The width at which the operands are compared, less 1.
abbrev pub top : SigSpec → SigSpec → ℕ
top a b = max (length a) (length b) - 1

pub fold_compare_nonempty :
    (op : CompareOp) (a b : SigSpec) (sa sb : Bool) (w : ℕ)
    → 0 < length a
    → 0 < length b
    → fold_compare op a b sa sb w
      ≡ fold_answer
          (compare_bits op
            (λ i. convert (operand_bit a sa i))
            (λ i. convert (operand_bit b sb i))
            (top a b))
          w
unfolding fold_compare
fold_compare_nonempty op [] b sa sb w h k = elim h [ ]
fold_compare_nonempty op (x ∷ a) [] sa sb w h k = elim k [ ]
fold_compare_nonempty op (x ∷ a) (y ∷ b) sa sb w h k = refl

-- Where `Biop` folds a comparison whose operands have equal top bits (after extension), the constant
-- is the answer of the operator, whatever the other bits are.
pub fold_compare_lem :
    (value : SigBit → Bool) (op : CompareOp) (a b : SigSpec) (sa sb : Bool) (w : ℕ) (ret : SigSpec)
    → IsValuation value
    → operand_value value a sa (top a b) ≡ operand_value value b sb (top a b)
    → fold_compare op a b sa sb w ≡ some ret
    → ret ≡ (
        if holds op
          (number (operand_value value a sa) (suc (top a b)))
          (number (operand_value value b sb) (suc (top a b)))
        then one_of_width w
        else replicate w (state s0))
unfolding fold_compare
fold_compare_lem value op [] b sa sb w ret v e f = cc
fold_compare_lem value op (x ∷ a) [] sa sb w ret v e f = cc
fold_compare_lem value op (x ∷ a) (y ∷ b) sa sb w ret v e f =
    let n = top (x ∷ a) (y ∷ b) in
    let d =
      compare_bits_lem op (λ i. convert (operand_bit (x ∷ a) sa i))
        (λ i. convert (operand_bit (y ∷ b) sb i)) (operand_value value (x ∷ a) sa)
        (operand_value value (y ∷ b) sb) n (λ i. convert-Describes value _ v)
        (λ i. convert-Describes value _ v) e in
    answer_lem _ _ w ret d f
