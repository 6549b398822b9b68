-- ===== src/Statements/Foreach/Order.antt =====
-- src/statements.h, ForeachLoopStatement: the rounds go through all tuples of indices, the first
-- dimension of the list changing fastest.
use yosys_slang.Base.{
  ℕ, suc, ◌+◌, ◌-◌, ◌*◌, ◌<◌, ◌≡◌, ◌⊎◌, inl, inr, refl, sym, ap, ◌∙◌, true, false, Option, none,
  some, List, [], ◌∷◌, arith, Bool-cases, All, if_true, if_false, ◌≢◌,
}
use native.Mathlib.Nat.{mul-suc}
use yosys_slang.Base.Int.{ℤ, pos, ◌+ℤ◌, ◌-ℤ◌, ltb_ℤ, pos_part, neg_part, +ℤ_parts, -ℤ_parts}
use yosys_slang.Statements.Foreach.Defs.{
  Index, step_index, at_end, reset_index, put, search, scan, finished, stepped, carried,
}
use yosys_slang.Statements.Syntax.{DimRange}

-- How far apart two integers are.
unfoldable pub distance : ℤ → ℤ → ℕ
distance a b =
    (pos_part a + neg_part b - (pos_part b + neg_part a))
    + (pos_part b + neg_part a - (pos_part a + neg_part b))

abbrev pub size : DimRange → ℕ
size r = suc (distance r.left r.right)

-- Between the bounds, whichever is the larger.
abbrev pub IsWithin : Index → Type 0
IsWithin x =
    distance x.range.left x.value + distance x.value x.range.right
    ≡ distance x.range.left x.range.right

abbrev pub IsWithinOption : Option Index → Type 0
IsWithinOption none = Unit {0}
IsWithinOption (some x) = IsWithin x

put-none : (x : Option Index) (o : Option (List (Option Index))) → put x o ≡ none → o ≡ none
put-none x none e = refl
put-none x (some l) e = cc

not_some : {A : Type 0} (a : A) → some a ≢ none
not_some a e = cc

step_down :
    (l v r : ℤ)
    → distance l v + distance v r ≡ distance l r
    → pos_part r + neg_part v < pos_part v + neg_part r
    → (distance l (v -ℤ pos 1) + distance (v -ℤ pos 1) r ≡ distance l r)
      × (distance l (v -ℤ pos 1) ≡ suc (distance l v))
unfolding distance
step_down l v r h k = (omega (arith, -ℤ_parts v (pos 1)), omega (arith, -ℤ_parts v (pos 1)))

step_up :
    (l v r : ℤ)
    → distance l v + distance v r ≡ distance l r
    → pos_part v + neg_part r < pos_part r + neg_part v
    → (distance l (v +ℤ pos 1) + distance (v +ℤ pos 1) r ≡ distance l r)
      × (distance l (v +ℤ pos 1) ≡ suc (distance l v))
unfolding distance
step_up l v r h k = (omega (arith, +ℤ_parts v (pos 1)), omega (arith, +ℤ_parts v (pos 1)))

step_index_lem :
    (x : Index)
    → IsWithin x
    → at_end x ≡ false
    → IsWithin (step_index x)
      × (distance x.range.left (step_index x).value ≡ suc (distance x.range.left x.value))
unfolding step_index at_end
step_index_lem x h e = elim (Bool-cases (ltb_ℤ x.range.right x.value)) [
  | inl c ↦ rw c (step_down x.range.left x.value x.range.right h (ground arith))
  | inr c ↦ rw c (step_up x.range.left x.value x.range.right h (ground arith))
]

reset_index_lem :
    (x : Index) → IsWithin (reset_index x) × (distance x.range.left (reset_index x).value ≡ 0)
unfolding reset_index distance
reset_index_lem x = (omega arith, omega arith)

at_end_lem :
    (x : Index)
    → at_end x ≡ true
    → distance x.range.left x.value ≡ distance x.range.left x.range.right
unfolding at_end distance
at_end_lem x e =
    let k : pos_part x.value + neg_part x.range.right ≡ pos_part x.range.right + neg_part x.value =
      ground arith in
    omega arith

-- The number of tuples, and the place of a tuple among them.
unfoldable pub tuples : List (Option Index) → ℕ
tuples [] = 1
tuples (none ∷ l) = tuples l
tuples (some x ∷ l) = size x.range * tuples l

unfoldable pub place : List (Option Index) → ℕ
unfolding distance
place [] = 0
place (none ∷ l) = place l
place (some x ∷ l) = distance x.range.left x.value + size x.range * place l

abbrev pub ranges_of : List (Option Index) → List (Option DimRange)
ranges_of [] = []
ranges_of (none ∷ l) = none ∷ ranges_of l
ranges_of (some x ∷ l) = some x.range ∷ ranges_of l

-- What the indices of the next round are to those of this one.
abbrev pub IsNext : List (Option Index) → List (Option Index) → Type 0
IsNext l r = (place r ≡ suc (place l)) × (ranges_of r ≡ ranges_of l) × All IsWithinOption r

-- The last tuple.
abbrev pub IsLast : List (Option Index) → Type 0
IsLast l = suc (place l) ≡ tuples l

IsNext-step :
    (x : Index) (l : List (Option Index))
    → All IsWithinOption (some x ∷ l)
    → at_end x ≡ false
    → IsNext (some x ∷ l) (some (step_index x) ∷ l)
unfolding place step_index
IsNext-step x l h c = let (w, d) = step_index_lem x h.0 c in (omega (arith, d), refl, (w, h.1))

IsNext-carry :
    (x : Index) (l r : List (Option Index))
    → at_end x ≡ true
    → IsNext l r
    → IsNext (some x ∷ l) (some (reset_index x) ∷ r)
unfolding place reset_index
IsNext-carry x l r c p =
    let (w, d) = reset_index_lem x in
    let m : size x.range * place r ≡ size x.range * place l + size x.range =
      ap (λ k. size x.range * k) p.0 ∙ mul-suc (size x.range) (place l) in
    (omega (arith, d, at_end_lem x c, m), ap (◌∷◌ (some x.range)) p.1, (w, p.2))

IsLast-end :
    (x : Index) (l : List (Option Index)) → at_end x ≡ true → IsLast l → IsLast (some x ∷ l)
unfolding place tuples
IsLast-end x l c p =
    let m : size x.range * tuples l ≡ size x.range * place l + size x.range =
      ap (λ k. size x.range * k) (sym p) ∙ mul-suc (size x.range) (place l) in
    omega (arith, at_end_lem x c, m)

IsNext-none : (l r : List (Option Index)) → IsNext l r → IsNext (none ∷ l) (none ∷ r)
unfolding place
IsNext-none l r p = (p.0, ap (◌∷◌ none) p.1, (tt, p.2))

search_lem :
    (l : List (Option Index))
    → All IsWithinOption l
    → ((search l ≡ none) × IsLast l)
      ⊎ ((r : List (Option Index)) × (search l ≡ some r) × IsNext l r)
unfolding search place tuples
search_lem [] h = inl (refl, refl)
search_lem (none ∷ l) h = elim (search_lem l h.1) [
  | inl (e, p) ↦ inl (rw e refl, p)
  | inr (r, e, p) ↦ inr (none ∷ r, rw e refl, IsNext-none l r p)
]
search_lem (some x ∷ l) h = elim (Bool-cases (at_end x)) [
  | inr c ↦ inr (some (step_index x) ∷ l, rw c refl, IsNext-step x l h c)
  | inl c ↦ elim (search_lem l h.1) [
    | inl (e, p) ↦ inl (rw (c, e) refl, IsLast-end x l c p)
    | inr (r, e, p) ↦ inr (some (reset_index x) ∷ r, rw (c, e) refl, IsNext-carry x l r c p)
  ]
]

-- Where the search behind an index fails, so does everything behind it.
scan_last : (l : List (Option Index)) → search l ≡ none → scan l ≡ finished
unfolding search scan
scan_last [] e = refl
scan_last (none ∷ l) e = rw (scan_last l (put-none _ _ e)) refl
scan_last (some x ∷ l) e = elim (Bool-cases (at_end x)) [
  | inl c ↦ let p = put-none _ _ (if_true _ _ _ _ c e) in rw (c, p, scan_last l p) refl
  | inr c ↦ absurd (not_some _ (if_false _ _ _ _ c e))
]

pub IsNext-indices_step :
    (l : List (Option Index))
    → All IsWithinOption l
    → ((scan l ≡ finished) × IsLast l)
      ⊎ ((r : List (Option Index)) × ((scan l ≡ stepped r) ⊎ ((scan l ≡ carried r))) × IsNext l r)
unfolding scan place tuples
IsNext-indices_step [] h = inl (refl, refl)
IsNext-indices_step (none ∷ l) h = elim (IsNext-indices_step l h.1) [
  | inl (e, p) ↦ inl (rw e refl, p)
  | inr (r, inl e, p) ↦ inr (none ∷ r, inl (rw e refl), IsNext-none l r p)
  | inr (r, inr e, p) ↦ inr (none ∷ r, inr (rw e refl), IsNext-none l r p)
]
IsNext-indices_step (some x ∷ l) h = elim (Bool-cases (at_end x)) [
  | inr c ↦ inr (some (step_index x) ∷ l, inl (rw c refl), IsNext-step x l h c)
  | inl c ↦ elim (search_lem l h.1) [
    | inl (e, p) ↦ inl (rw (c, e, scan_last l e) refl, IsLast-end x l c p)
    | inr (r, e, p) ↦ inr (some (reset_index x) ∷ r, inr (rw (c, e) refl), IsNext-carry x l r c p)
  ]
]
