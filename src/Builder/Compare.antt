-- ===== src/Builder/Compare.antt =====
-- src/builder.cc, `RTLILBuilder::Biop`: the comparison of two signals.
pub mod Laws
pub mod Wrap
use yosys_slang.Base.{
  ℕ, zero, suc, ◌+◌, ◌-◌, Bool, true, false, ◌||◌, ◌&&◌, Option, none, some, List, [], ◌∷◌, length,
  get_or, replicate, ◌++◌, max, ltb, if◌then◌else◌,
}
use yosys_slang.Base.Int.{ℤ, pos, negsuc, ltb_ℤ}
use yosys_slang.Rtlil.{State, s0, s1, SigBit, SigSpec, state, one_of_width, is_fully_const}
use yosys_slang.Builder.ThreeValued.{not_lit, xor_lit, xnor_lit, carry_lit, convert}

pub data CompareOp : Type 0 where
  le lt gt ge : CompareOp

abbrev pub is_le_ge : CompareOp → Bool
is_le_ge le = true
is_le_ge ge = true
is_le_ge _ = false

abbrev pub is_gt_ge : CompareOp → Bool
is_gt_ge gt = true
is_gt_ge ge = true
is_gt_ge _ = false

-- `SigSpec::msb`.
abbrev pub msb : SigSpec → SigBit
msb l = get_or l (length l - 1) (state s0)

-- `i < a.size() ? a[i] : (a_signed ? a.msb() : RTLIL::S0)`.
unfoldable pub operand_bit : SigSpec → Bool → ℕ → SigBit
operand_bit a signed i =
    if ltb i (length a) then get_or a i (state s0) else if signed then msb a else state s0

-- The carry after the `n` lowest bits, `a` and `b` being the literals of the bits of the operands.
unfoldable pub carry_chain : (ℕ → ℤ) → (ℕ → ℤ) → ℤ → ℕ → ℤ
carry_chain a b carry zero = carry
carry_chain a b carry (suc n) = carry_lit (a n) (not_lit (b n)) (carry_chain a b carry n)

-- The loop with `al`, `bl` and `carry`, and the value of `result` behind it; `last` is `width - 1`.
-- `std::swap` exchanges the operands.
unfoldable pub compare_bits : CompareOp → (ℕ → ℤ) → (ℕ → ℤ) → ℕ → ℤ
unfolding carry_chain
compare_bits op a b last =
    let al = if is_gt_ge op then b else a in
    let bl = if is_gt_ge op then a else b in
    let carry = carry_chain al bl (if is_le_ge op then negsuc 0 else pos 1) last in
    xor_lit carry (xnor_lit (al last) (bl last))

-- The constant for a result that is known.
unfoldable pub fold_answer : ℤ → ℕ → Option SigSpec
fold_answer result y_width =
    if ltb_ℤ result (pos 0)
    then some (replicate y_width (state s0))
    else if ltb_ℤ (pos 0) result
    then some (one_of_width y_width)
    else none

-- What `Biop` returns for a comparison of operands that are not both constant, before it emits a cell:
-- `none` where it goes on to that.
unfoldable pub fold_compare : CompareOp → SigSpec → SigSpec → Bool → Bool → ℕ → Option SigSpec
unfolding operand_bit compare_bits fold_answer
fold_compare op [] b a_signed b_signed y_width = none
fold_compare op (x ∷ a) [] a_signed b_signed y_width = none
fold_compare op (x ∷ a) (y ∷ b) a_signed b_signed y_width =
    fold_answer
      (compare_bits op (λ i. convert (operand_bit (x ∷ a) a_signed i))
        (λ i. convert (operand_bit (y ∷ b) b_signed i)) (max (length (x ∷ a)) (length (y ∷ b)) - 1))
      y_width

-- `RTLIL::const_le` and its kin.
abbrev pub ConstCompare : Type 0
ConstCompare = CompareOp → SigSpec → SigSpec → Bool → Bool → ℕ → SigSpec

-- `Biop` for a comparison, before it emits a cell.
unfoldable pub biop_compare :
    ConstCompare → CompareOp → SigSpec → SigSpec → Bool → Bool → ℕ → Option SigSpec
unfolding fold_compare
biop_compare const_compare op a b a_signed b_signed y_width =
    if is_fully_const a && is_fully_const b
    then some (const_compare op a b a_signed b_signed y_width)
    else fold_compare op a b a_signed b_signed y_width
