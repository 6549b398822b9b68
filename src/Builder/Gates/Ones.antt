-- ===== src/Builder/Gates/Ones.antt =====
-- src/builder.cc, `CountOnes`: the tree of adders.
use yosys_slang.Base.{
  ℕ, zero, suc, ◌+◌, ◌-◌, ◌*◌, ◌^◌, ◌≤◌, ◌<◌, ◌≡◌, refl, ap, ◌∙◌, Bool, true, false, ◌&&◌, List, [],
  ◌∷◌, ◌++◌, map, if◌then◌else◌, ltb, ◌==◌, length, take, replicate, Bool-cases, inl, inr, arith,
  All, append-nil, length-replicate, take_all,
}
use yosys_slang.Rtlil.{SigBit, SigSpec, s0, state, is_fully_const, is_fully_def}
use yosys_slang.Builder.ThreeValued.{IsValuation}
use yosys_slang.Builder.Gates.{Cells, extend_u0, biop_add, next_level, levels, first_of, count_ones}
use yosys_slang.Builder.Gates.Meaning.{HasNoUnknown, bits_number, const-def, both_left, both_right}

-- A sum of `w` bits of two operands: it has no unknown bits and is right modulo 2 ^ w.
abbrev pub IsSum : (SigBit → Bool) → ℕ → SigSpec → SigSpec → SigSpec → Type 0
IsSum val w a b y =
    (length y ≡ w)
    × HasNoUnknown y
    × ((k : ℕ) × (bits_number (map val y) + k * 2 ^ w
          ≡ bits_number (map val a) + bits_number (map val b)))

-- What Yosys documents of `$add` and of its evaluation on constants without unknown bits.
pub record MeetsAdd (cells : Cells) (val : SigBit → Bool) : Type 0 where
  pub add_law : (a b : SigSpec) (w : ℕ) → IsSum val w a b (cells.add a b w)
  pub const_add_law :
      (a b : SigSpec) (w : ℕ)
      → is_fully_def a ≡ true
      → is_fully_def b ≡ true
      → IsSum val w a b (cells.const_add a b w)

-- How many bits are 1.
abbrev pub ones : List Bool → ℕ
ones [] = 0
ones (b ∷ l) = (if b then 1 else 0) + ones l

module _ (cells : Cells) (val : SigBit → Bool) (v : IsValuation val)
    (laws : MeetsAdd cells val) where
  abbrev total : List SigSpec → ℕ
  total [] = 0
  total (a ∷ l) = bits_number (map val a) + total l

  abbrev IsLevel : ℕ → List SigSpec → Type 0
  IsLevel w = All (λ a. (length a ≡ w) × HasNoUnknown a)

  biop_add_lem :
      (a b : SigSpec) (w : ℕ)
      → HasNoUnknown a
      → HasNoUnknown b
      → IsSum val w a b (biop_add cells a b w)
  unfolding biop_add
  biop_add_lem a b w h k = elim (Bool-cases (is_fully_const a && is_fully_const b)) [
    | inl e ↦ rw e (
        laws.const_add_law a b w (const-def a h (both_left (is_fully_const a) (is_fully_const b) e))
          (const-def b k (both_right (is_fully_const a) (is_fully_const b) e)))
    | inr e ↦ rw e (laws.add_law a b w)
  ]

  not_less : (n w : ℕ) → n ≡ w → ltb n w ≡ false
  not_less n w e = ground arith

  regroup :
      (m x y s t u k j : ℕ)
      → s + k * m ≡ x + y
      → t + j * m ≡ u
      → (s + t) + (k + j) * m ≡ x + (y + u)
  regroup m x y s t u k j e f = grind arith

  two_levels : (n : ℕ) → ltb 1 (suc (suc n)) ≡ true
  two_levels n = ground arith

  raise : (m x k j t u : ℕ) → x + k * m ≡ t → t + j * m ≡ u → x + (k + j) * m ≡ u
  raise m x k j t u e f = grind arith

  next_level_lem :
      (w : ℕ) (l : List SigSpec)
      → IsLevel w l
      → IsLevel w (next_level cells w l)
        × ((k : ℕ) × (total (next_level cells w l) + k * 2 ^ w ≡ total l))
        × (length (next_level cells w l) + length (next_level cells w l) ≤ suc (length l))
        × (length l ≤ length (next_level cells w l) + length (next_level cells w l))
  unfolding next_level
  next_level_lem w [] h = (tt, (0, omega arith), omega arith, omega arith)
  next_level_lem w (a ∷ []) h = (h, (0, omega arith), omega arith, omega arith)
  next_level_lem w (a ∷ b ∷ l) h =
      let (n, u, (k, e)) = biop_add_lem a b w h.0.1 h.1.0.1 in
      let (g, (j, f), x, y) = next_level_lem w l h.1.1 in
      rw (not_less _ _ n) (
        ((n, u), g),
        (
          k + j,
          regroup (2 ^ w) (bits_number (map val a)) (bits_number (map val b))
              (bits_number (map val (biop_add cells a b w))) (total (next_level cells w l))
              (total l) k j e f,
        ),
        omega arith,
        omega arith,
      )

  levels_lem :
      (w fuel : ℕ) (l : List SigSpec)
      → IsLevel w l
      → 0 < length l
      → length l ≤ suc fuel
      → (a : SigSpec) × (k : ℕ) × (levels cells w fuel l ≡ a ∷ [])
        × (length a ≡ w)
        × HasNoUnknown a
        × (bits_number (map val a) + k * 2 ^ w ≡ total l)
  unfolding levels
  levels_lem w fuel [] h n m = absurd (omega arith)
  levels_lem w zero (a ∷ []) h n m = (a, 0, refl, h.0.0, h.0.1, omega arith)
  levels_lem w (suc fuel) (a ∷ []) h n m = (a, 0, refl, h.0.0, h.0.1, omega arith)
  levels_lem w zero (a ∷ b ∷ l) h n m = absurd (omega arith)
  levels_lem w (suc fuel) (a ∷ b ∷ l) h n m =
      let (g, (j, f), x, y) = next_level_lem w (a ∷ b ∷ l) h in
      let (c, k, e, p, q, r) =
        levels_lem w fuel (next_level cells w (a ∷ b ∷ l)) g (omega arith) (omega arith) in
      (
        c,
        k + j,
        rw (two_levels (length l)) e,
        p,
        q,
        raise (2 ^ w) (bits_number (map val c)) k j (total (next_level cells w (a ∷ b ∷ l)))
            (total (a ∷ b ∷ l)) r f,
      )

  HasNoUnknown-zeros : (n : ℕ) → HasNoUnknown (replicate n (state s0))
  HasNoUnknown-zeros zero = tt
  HasNoUnknown-zeros (suc n) = ((λ e. refl), HasNoUnknown-zeros n)

  zeros_number : (n : ℕ) → bits_number (map val (replicate n (state s0))) ≡ 0
  zeros_number zero = refl
  zeros_number (suc n) = rw (v.of_s0) (omega (arith, zeros_number n))

  pad_lem : (w : ℕ) → take w [] ++ replicate (suc w - 1) (state s0) ≡ replicate w (state s0)
  pad_lem zero = refl
  pad_lem (suc w) = ap (λ n. replicate n (state s0)) {x = suc (suc w) - 1} {y = suc w} (omega arith)

  -- The bits of the operand, each extended to the width.
  leaves_lem :
      (w : ℕ) (l : SigSpec)
      → HasNoUnknown l
      → let leaves = map (λ b. extend_u0 (b ∷ []) (suc w)) l in
        IsLevel (suc w) leaves × (total leaves ≡ ones (map val l)) × (length leaves ≡ length l)
  unfolding extend_u0
  leaves_lem w [] h = (tt, refl, refl)
  leaves_lem w (b ∷ l) h =
      let (g, e, n) = leaves_lem w l h.1 in
      rw (pad_lem w) (
        (((ap suc (length-replicate w (state s0)), (h.0, HasNoUnknown-zeros w)), g)),
        rw (zeros_number w) (omega (arith, e)),
        ap suc n,
      )

  extend_same : (a : SigSpec) (w : ℕ) → length a ≡ w → extend_u0 a w ≡ a
  unfolding extend_u0
  extend_same a w e = rw (take_all w a (omega arith)) (
      ap (λ n. a ++ replicate n (state s0)) {x = w - length a} {y = 0} (omega arith) ∙ append-nil a)

  small_test : (n : ℕ) → (suc (suc n) == 0 ≡ false) × (suc (suc n) == 1 ≡ false)
  small_test n = (ground arith, ground arith)

  many_lem :
      (b c : SigBit) (l : SigSpec) (w : ℕ)
      → count_ones cells (b ∷ c ∷ l) (suc w)
        ≡ extend_u0
            (first_of cells (
              levels cells
                (suc w)
                (length (b ∷ c ∷ l))
                (map (λ d. extend_u0 (d ∷ []) (suc w)) (b ∷ c ∷ l))))
            (suc w)
  unfolding count_ones
  many_lem b c l w = rw ((small_test (length l)).0, (small_test (length l)).1) refl

  single_lem :
      (a : SigSpec) (w : ℕ) → length a ≡ suc w → extend_u0 (first_of cells (a ∷ [])) (suc w) ≡ a
  unfolding first_of
  single_lem a w p = extend_same a (suc w) p

  count_many_lem :
      (b c : SigBit) (l : SigSpec) (w : ℕ)
      → HasNoUnknown (b ∷ c ∷ l)
      → (length (count_ones cells (b ∷ c ∷ l) (suc w)) ≡ suc w)
        × ((k : ℕ) × (bits_number (map val (count_ones cells (b ∷ c ∷ l) (suc w))) + k * 2 ^ suc w
              ≡ ones (map val (b ∷ c ∷ l))))
  count_many_lem b c l w h =
      let leaves = map (λ d. extend_u0 (d ∷ []) (suc w)) (b ∷ c ∷ l) in
      let (g, e, n) = leaves_lem w (b ∷ c ∷ l) h in
      let (a, k, f, p, q, r) =
        levels_lem (suc w) (length (b ∷ c ∷ l)) leaves g (omega arith) (omega arith) in
      rw (many_lem b c l w ∙ ap (λ x. extend_u0 (first_of cells x) (suc w)) f ∙ single_lem a w p)
        (p, (k, r ∙ e))

  -- The result has the width, and counts the bits of the operand that are 1, modulo 2 to the
  -- width. The width is positive, the operand's constant bits are 0 or 1, and additions are what
  -- Yosys documents.
  pub count_ones_lem :
      (sig : SigSpec) (w : ℕ)
      → HasNoUnknown sig
      → (length (count_ones cells sig (suc w)) ≡ suc w)
        × ((k : ℕ) × (bits_number (map val (count_ones cells sig (suc w))) + k * 2 ^ suc w
              ≡ ones (map val sig)))
  unfolding count_ones extend_u0
  count_ones_lem [] w h =
      rw (pad_lem w)
        (ap suc (length-replicate w (state s0)), (0, rw (v.of_s0, zeros_number w) (omega arith)))
  count_ones_lem (b ∷ []) w h =
      rw (pad_lem w)
        (ap suc (length-replicate w (state s0)), (0, rw (zeros_number w) (omega arith)))
  count_ones_lem (b ∷ c ∷ l) w h = count_many_lem b c l w h
