-- ===== src/Async/Conditions.antt =====
-- src/async_pattern.cc, `interpret_async_pattern`: the condition of an asynchronous load.
use yosys_slang.Base.{
  ℕ, ◌^◌, ◌<◌, ◌+◌, ◌≡◌, inl, inr, refl, sym, ap, subst, ◌∙◌, Bool, true, false, ◌&&◌, not,
  if◌then◌else◌, ltb, ◌==◌, arith, Bool-cases,
}
use yosys_slang.Async.Defs.{
  Expression, reference, logical_not, bitwise_not, equality, conversion, other_expression, width,
  strip,
}

-- The truth of a value: some bit is 1.
abbrev pub is_true : ℕ → Bool
is_true n = not (n == 0)

-- A value for each expression, as IEEE 1800 has it for `!`, `==` and a widening conversion, and for `~`
-- of one bit.
pub record IsEvaluation (eval : Expression → ℕ) : Type 0 where
  pub bounded : (e : Expression) → eval e < 2 ^ width e
  pub not_value : (e : Expression) → eval (logical_not e) ≡ (if eval e == 0 then 1 else 0)
  pub invert_value :
      (e : Expression) → width e ≡ 1 → eval (bitwise_not e) ≡ (if eval e == 0 then 1 else 0)
  pub equal_value :
      (e : Expression) (w c : ℕ) → eval (equality e w c) ≡ (if eval e == c then 1 else 0)
  pub widened :
      (e : Expression) (w : ℕ) → width e < w → is_true (eval (conversion e w)) ≡ is_true (eval e)

-- Each `~` that the condition is read through is of one bit, and each side of `==` has the width of
-- the constant.
abbrev pub IsNarrow : Expression → Type 0
IsNarrow (logical_not e) = IsNarrow e
IsNarrow (bitwise_not e) = (width e ≡ 1) × IsNarrow e
IsNarrow (equality e w c) = (width e ≡ w) × IsNarrow e
IsNarrow (conversion e w) = IsNarrow e
IsNarrow e = Unit {0}

-- The truth of a condition that is read with a polarity.
abbrev pub holds_with : Bool → Bool → Bool
holds_with true b = b
holds_with false b = not b

pub less_of : (m n : ℕ) → ltb m n ≡ true → m < n
less_of m n e = ground arith

negated :
    (x : ℕ) (p : Bool)
    → holds_with (not p) (is_true x) ≡ holds_with p (is_true (if x == 0 then 1 else 0))
negated x true = ground arith
negated x false = ground arith

one_bit : (x w : ℕ) → x < 2 ^ w → w ≡ 1 → x < 2
one_bit x w h e = subst (λ n. x < 2 ^ n) e h

kept :
    (x : ℕ) (p : Bool)
    → x < 2
    → holds_with p (is_true x) ≡ holds_with p (is_true (if x == 1 then 1 else 0))
kept x true h = ground arith
kept x false h = ground arith

two_tests : (w c : ℕ) → (w == 1 && c == 1) ≡ true → (w ≡ 1) × (c ≡ 1)
two_tests w c e = ground arith

is_zero : (c : ℕ) → (c == 0) ≡ true → c ≡ 0
is_zero c e = ground arith

-- What is left of a condition, with the polarity, is true exactly where the condition is.
-- Expressions have the values of IEEE 1800, each `~` that is read through is of one bit, and the
-- sides of an `==` have one width.
pub strip_lem :
    (eval : Expression → ℕ)
    → IsEvaluation eval
    → (e : Expression) (polarity : Bool) → IsNarrow e
    → holds_with (strip e polarity).1 (is_true (eval (strip e polarity).0))
      ≡ holds_with polarity (is_true (eval e))
unfolding strip
strip_lem eval v (logical_not e) p n =
    strip_lem eval v e (not p) n
    ∙ negated (eval e) p
    ∙ ap (λ x. holds_with p (is_true x)) (sym (v.not_value e))
strip_lem eval v (bitwise_not e) p n =
    strip_lem eval v e (not p) n.1
    ∙ negated (eval e) p
    ∙ ap (λ x. holds_with p (is_true x)) (sym (v.invert_value e n.0))
strip_lem eval v (equality e w c) p n = elim (Bool-cases (w == 1 && c == 1)) [
  | inl f ↦
      let (x, y) = two_tests w c f in
      rw f (
        strip_lem eval v e p n.1
        ∙ kept (eval e) p (one_bit (eval e) (width e) (v.bounded e) (n.0 ∙ x))
        ∙ ap (λ d. holds_with p (is_true (if eval e == d then 1 else 0))) (sym y)
        ∙ ap (λ x. holds_with p (is_true x)) (sym (v.equal_value e w c)))
  | inr f ↦ elim (Bool-cases (c == 0)) [
    | inl g ↦
        rw (f, g)
          (strip_lem eval v e (not p) n.1
            ∙ negated (eval e) p
            ∙ ap (λ d. holds_with p (is_true (if eval e == d then 1 else 0))) (sym (is_zero c g))
            ∙ ap (λ x. holds_with p (is_true x)) (sym (v.equal_value e w c)))
    | inr g ↦ rw (f, g) refl
  ]
]
strip_lem eval v (conversion e w) p n = elim (Bool-cases (ltb (width e) w)) [
  | inl f ↦
      rw f
        (strip_lem eval v e p n ∙ ap (holds_with p) (sym (v.widened e w (less_of (width e) w f))))
  | inr f ↦ rw f refl
]
strip_lem eval v (reference r) p n = refl
strip_lem eval v (other_expression w) p n = refl

-- A value for each expression, as IEEE 1800 has it for `~` of any width and for a widening conversion
-- without a sign.
pub record IsUnsigned (eval : Expression → ℕ) : Type 0 where
  pub inverted : (e : Expression) → eval (bitwise_not e) + eval e + 1 ≡ 2 ^ width e
  pub extended : (e : Expression) (w : ℕ) → width e < w → eval (conversion e w) ≡ eval e
