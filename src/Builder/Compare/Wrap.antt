-- ===== src/Builder/Compare/Wrap.antt =====
-- src/builder.cc, `RTLILBuilder::Biop`: comparisons of operands whose top bits differ.
use yosys_slang.Base.{
  ℕ, zero, suc, ◌+◌, ◌^◌, ◌<◌, ◌≡◌, ap, ◌∙◌, Bool, true, false, some, List, [], ◌∷◌, ◌++◌, length,
  arith, get_or, length-append, ltb, ◌&&◌,
}
use yosys_slang.Base.Int.{ℤ, pos, negsuc, neg}
use yosys_slang.Rtlil.{s0, s1, SigBit, SigSpec, state, one_of_width, is_fully_const}
use yosys_slang.Builder.ThreeValued.{
  not_lit, xor_lit, xnor_lit, carry_lit, and_lit, or_lit, convert, IsValuation,
}
use yosys_slang.Builder.Compare.{
  lt, compare_bits, operand_bit, fold_answer, fold_compare, carry_chain, ConstCompare, biop_compare,
}
use yosys_slang.Builder.Compare.Laws.{
  number, number-lt, bit_times, operand_value, top, fold_compare_nonempty,
}

-- A signal whose two top bits are the given one.
abbrev pub topped : SigSpec → SigBit → SigSpec
topped l b = l ++ (b ∷ b ∷ [])

get_or_behind {ℓ} :
    {A : Type ℓ} (l r : List A) (i : ℕ) (x : A) → get_or (l ++ r) (length l + i) x ≡ get_or r i x
get_or_behind [] r i x = ap (λ k. get_or r k x) (omega arith)
get_or_behind (y ∷ l) r i x =
    ap (λ k. get_or (y ∷ (l ++ r)) k x) {x = suc (length l) + i} {y = suc (length l + i)}
      (omega arith)
    ∙ get_or_behind l r i x

operand_bit-topped :
    (l : SigSpec) (b : SigBit) (i : ℕ) → i < 2 → operand_bit (topped l b) false (length l + i) ≡ b
unfolding operand_bit
operand_bit-topped l b zero h =
    ground (arith, get_or_behind l (b ∷ b ∷ []) 0 (state s0), length-append l (b ∷ b ∷ []))
operand_bit-topped l b (suc zero) h =
    ground (arith, get_or_behind l (b ∷ b ∷ []) 1 (state s0), length-append l (b ∷ b ∷ []))
operand_bit-topped l b (suc (suc i)) h = absurd (omega arith)

carry_known : (c : ℤ) → carry_lit (pos 1) (not_lit (negsuc 0)) c ≡ pos 1
unfolding carry_lit and_lit or_lit not_lit neg
carry_known c = ground arith

compare_bits_topped :
    (la lb : ℕ → ℤ) (n : ℕ)
    → la n ≡ pos 1
    → lb n ≡ negsuc 0
    → la (suc n) ≡ pos 1
    → lb (suc n) ≡ negsuc 0
    → compare_bits lt la lb (suc n) ≡ pos 1
unfolding compare_bits carry_chain xor_lit or_lit not_lit and_lit xnor_lit
compare_bits_topped la lb n p q r s = rw (p, q, r, s, carry_known)

top-topped :
    (x y : SigSpec)
    → length x ≡ length y
    → top (topped x (state s1)) (topped y (state s0)) ≡ suc (length x)
top-topped x y e =
    omega (
      arith,
      length-append x (state s1 ∷ state s1 ∷ []),
      length-append y (state s0 ∷ state s0 ∷ []),
    )

top_bit :
    (l : SigSpec) (b : SigBit) (i n : ℕ)
    → n ≡ length l + i
    → i < 2
    → operand_bit (topped l b) false n ≡ b
top_bit l b i n e h = rw e (operand_bit-topped l b i h)

wrong_order :
    (a b : ℕ → Bool) (n : ℕ)
    → a (suc n) ≡ true
    → b (suc n) ≡ false
    → ltb (number a (n + 2)) (number b (n + 2)) ≡ false
unfolding number
wrong_order a b n h k =
    let e : n + 2 ≡ suc (suc n) = omega arith in
    rw e (
      ground (
        arith,
        number-lt b (suc n),
        bit_times (a (suc n)) (2 ^ suc n),
        bit_times (b (suc n)) (2 ^ suc n),
      ))

-- What is folded, and what the answer is.
fold_compare-topped :
    (value : SigBit → Bool) (x y : SigSpec) (w : ℕ)
    → IsValuation value
    → length x ≡ length y
    → (fold_compare lt (topped x (state s1)) (topped y (state s0)) false false w
        ≡ some (one_of_width w))
      × (ltb
            (number (operand_value value (topped x (state s1)) false) (length x + 2))
            (number (operand_value value (topped y (state s0)) false) (length x + 2))
          ≡ false)
unfolding fold_answer convert
fold_compare-topped value x y w v e = (
  fold_compare_nonempty lt (topped x (state s1)) (topped y (state s0)) false false w
        (omega (arith, length-append x (state s1 ∷ state s1 ∷ [])))
        (omega (arith, length-append y (state s0 ∷ state s0 ∷ [])))
      ∙ ap (λ r. fold_answer r w)
          (ap
              (compare_bits lt (λ i. convert (operand_bit (topped x (state s1)) false i))
                (λ i. convert (operand_bit (topped y (state s0)) false i)))
              (top-topped x y e)
            ∙ compare_bits_topped _ _ (length x)
                (ap convert (top_bit x (state s1) 0 (length x) (omega arith) (omega arith)))
                (ap convert (top_bit y (state s0) 0 (length x) (omega arith) (omega arith)))
                (ap convert (top_bit x (state s1) 1 (suc (length x)) (omega arith) (omega arith)))
                (ap convert (top_bit y (state s0) 1 (suc (length x)) (omega arith) (omega arith)))),
  wrong_order (operand_value value (topped x (state s1)) false)
      (operand_value value (topped y (state s0)) false) (length x)
      (ap value (top_bit x (state s1) 1 (suc (length x)) (omega arith) (omega arith)) ∙ v.of_s1)
      (ap value (top_bit y (state s0) 1 (suc (length x)) (omega arith) (omega arith)) ∙ v.of_s0),
)

-- The bug: of two unsigned operands of one width that are not both constant, `{1, 1, x} < {0, 0, y}` is
-- folded to true, whatever the bits below are, though it is false under every valuation.
pub biop_compare_wrong :
    (const_compare : ConstCompare) (value : SigBit → Bool) (x y : SigSpec) (w : ℕ)
    → IsValuation value
    → length x ≡ length y
    → (is_fully_const (topped x (state s1)) && is_fully_const (topped y (state s0))) ≡ false
    → (biop_compare const_compare lt (topped x (state s1)) (topped y (state s0)) false false w
        ≡ some (one_of_width w))
      × (ltb
            (number (operand_value value (topped x (state s1)) false) (length x + 2))
            (number (operand_value value (topped y (state s0)) false) (length x + 2))
          ≡ false)
unfolding biop_compare
biop_compare_wrong const_compare value x y w v e c =
    let (folded, answer) = fold_compare-topped value x y w v e in (rw c folded, answer)
