-- ===== src/Statements/Foreach/Rounds.antt =====
-- src/statements.h, ForeachLoopStatement: the tuples of indices that `next_indices` steps through.
use yosys_slang.Base.{
  ℕ, zero, suc, ◌+◌, ◌-◌, ◌*◌, ◌<◌, ◌≤◌, ◌≡◌, ◌⊎◌, inl, inr, Option-cases, refl, sym, ap, ap₂,
  subst, ◌∙◌, Option, none, some, List, [], ◌∷◌, arith, All, dec_lt, ◌>>=◌,
}
use native.Mathlib.Nat.{mul-suc, mul-add}
use yosys_slang.Base.Int.{ℤ, eq_of_parts}
use yosys_slang.Statements.Syntax.{LoopDim, DimRange}
use yosys_slang.Statements.Foreach.Defs.{first_index, first_indices, Index, next_indices}
use yosys_slang.Statements.Foreach.Order.{
  distance, size, IsWithin, IsWithinOption, tuples, place, ranges_of, IsNext, IsLast,
  IsNext-indices_step,
}

mul_gap : (s p q : ℕ) → p < q → s * p + s ≤ s * q
mul_gap s p q h =
    let e : s * q ≡ s * suc p + s * (q - suc p) =
      ap (λ k. s * k) {x = q} {y = suc p + (q - suc p)} (omega arith)
      ∙ mul-add s (suc p) (q - suc p) in
    omega (arith, e, mul-suc s p)

-- A number is split into its lowest digit and the rest in one way.
digit : (s a p b q : ℕ) → a < s → b < s → a + s * p ≡ b + s * q → (a ≡ b) × (p ≡ q)
digit s a p b q h k e = elim (dec_lt p q) [
  | yes c ↦ absurd (omega (arith, mul_gap s p q c))
  | no c ↦ elim (dec_lt q p) [
    | yes d ↦ absurd (omega (arith, mul_gap s q p d))
    | no d ↦
        let z : p ≡ q = omega arith in let m : s * p ≡ s * q = ap (λ k. s * k) z in (omega arith, z)
  ]
]

same_value :
    (l v w r : ℤ)
    → distance l v + distance v r ≡ distance l r
    → distance l w + distance w r ≡ distance l r
    → distance l v ≡ distance l w
    → v ≡ w
unfolding distance
same_value l v w r h k e = eq_of_parts v w (omega arith)

same_index : (x y : Index) → x.range ≡ y.range → x.value ≡ y.value → x ≡ y
same_index x y h k = cc

within_size : (x : Index) → IsWithin x → distance x.range.left x.value < size x.range
within_size x h = omega arith

place-tuples : (l : List (Option Index)) → All IsWithinOption l → place l < tuples l
unfolding place tuples
place-tuples [] h = omega arith
place-tuples (none ∷ l) h = place-tuples l h.1
place-tuples (some x ∷ l) h =
    omega
      (arith, within_size x h.0, mul_gap (size x.range) (place l) (tuples l) (place-tuples l h.1))

-- A tuple is determined by its place.
place_inj :
    (l r : List (Option Index))
    → All IsWithinOption l
    → All IsWithinOption r
    → ranges_of l ≡ ranges_of r
    → place l ≡ place r
    → l ≡ r
unfolding place
place_inj [] [] h k e p = refl
place_inj [] (none ∷ r) h k e p = cc
place_inj [] (some y ∷ r) h k e p = cc
place_inj (none ∷ l) [] h k e p = cc
place_inj (some x ∷ l) [] h k e p = cc
place_inj (none ∷ l) (some y ∷ r) h k e p = cc
place_inj (some x ∷ l) (none ∷ r) h k e p = cc
place_inj (none ∷ l) (none ∷ r) h k e p = ap (◌∷◌ none) (place_inj l r h.1 k.1 (cc) p)
place_inj (some x ∷ l) (some y ∷ r) h k e p =
    let er : x.range ≡ y.range = cc in
    let et : ranges_of l ≡ ranges_of r = cc in
    let q : distance x.range.left x.value + size x.range * place l
        ≡ distance x.range.left y.value + size x.range * place r =
      p ∙ ap (λ (z : DimRange). distance z.left y.value + size z * place r) (sym er) in
    let w : IsWithin (record { range = x.range; value = y.value }) =
      subst (λ (z : DimRange). IsWithin (record { range = z; value = y.value })) (sym er) k.0 in
    let (d, t) =
      digit (size x.range) (distance x.range.left x.value) (place l) (distance x.range.left y.value)
        (place r) (within_size x h.0) (within_size (record { range = x.range; value = y.value }) w)
        q in
    ap₂ (λ u v. some u ∷ v)
      (same_index x y er (same_value x.range.left x.value y.value x.range.right h.0 w d))
      (place_inj l r h.1 k.1 et t)

tuples-ranges_of : (l r : List (Option Index)) → ranges_of l ≡ ranges_of r → tuples l ≡ tuples r
unfolding tuples
tuples-ranges_of [] [] e = refl
tuples-ranges_of [] (none ∷ r) e = cc
tuples-ranges_of [] (some y ∷ r) e = cc
tuples-ranges_of (none ∷ l) [] e = cc
tuples-ranges_of (some x ∷ l) [] e = cc
tuples-ranges_of (none ∷ l) (some y ∷ r) e = cc
tuples-ranges_of (some x ∷ l) (none ∷ r) e = cc
tuples-ranges_of (none ∷ l) (none ∷ r) e = tuples-ranges_of l r (cc)
tuples-ranges_of (some x ∷ l) (some y ∷ r) e =
    let er : x.range ≡ y.range = cc in
    let et : ranges_of l ≡ ranges_of r = cc in
    ap₂ (λ (u : DimRange) v. size u * v) er (tuples-ranges_of l r et)

next_indices_lem :
    (l : List (Option Index))
    → All IsWithinOption l
    → ((next_indices l ≡ none) × IsLast l)
      ⊎ ((r : List (Option Index)) × (next_indices l ≡ some r) × IsNext l r)
unfolding next_indices
next_indices_lem l h = elim (IsNext-indices_step l h) [
  | inl (e, p) ↦ inl (rw (next_indices, e) refl, p)
  | inr (r, inl e, p) ↦ inr (r, rw (next_indices, e) refl, p)
  | inr (r, inr e, p) ↦ inr (r, rw (next_indices, e) refl, p)
]

-- The indices after a number of steps of `next_indices`.
unfoldable pub rounds : ℕ → List (Option Index) → Option (List (Option Index))
rounds zero l = some l
rounds (suc k) l = do r ← next_indices l; rounds k r

rounds-place :
    (k : ℕ) (l : List (Option Index))
    → All IsWithinOption l
    → place l + k < tuples l
    → (m : List (Option Index)) × (rounds k l ≡ some m)
      × (place m ≡ place l + k)
      × (ranges_of m ≡ ranges_of l)
      × All IsWithinOption m
unfolding rounds
rounds-place zero l h k = (l, refl, omega arith, refl, h)
rounds-place (suc k) l h q = elim (next_indices_lem l h) [
  | inl (e, p) ↦ absurd (omega arith)
  | inr (r, e, (p, s, w)) ↦
      let (m, f, g, t, v) = rounds-place k r w (omega (arith, p, tuples-ranges_of r l s)) in
      (m, rw e f, omega (arith, p, g), t ∙ s, v)
]

rounds-end :
    (k : ℕ) (l : List (Option Index))
    → All IsWithinOption l
    → place l + k ≡ tuples l
    → rounds k l ≡ none
unfolding rounds
rounds-end zero l h q = absurd (omega (arith, place-tuples l h))
rounds-end (suc k) l h q = elim (next_indices_lem l h) [
  | inl (e, p) ↦ rw e refl
  | inr (r, e, (p, s, w)) ↦ rw e (rounds-end k r w (omega (arith, p, tuples-ranges_of r l s)))
]

left_index : DimRange → Index
left_index r = record { range = r; value = r.left }

left_index_lem : (r : DimRange) → IsWithin (left_index r) × (distance r.left r.left ≡ 0)
unfolding distance left_index
left_index_lem r = (omega arith, omega arith)

first_index_cases :
    (d : LoopDim)
    → (first_index d ≡ none) ⊎ ((r : DimRange) × (first_index d ≡ some (left_index r)))
unfolding first_index left_index
first_index_cases d = elim (Option-cases d.loop_var) [
  | inl e ↦ inl (rw (first_index, e) refl)
  | inr (v, e) ↦ elim (Option-cases d.range) [
    | inl f ↦ inl (rw (first_index, e, f) refl)
    | inr (r, f) ↦ inr (r, rw (first_index, e, f) refl)
  ]
]

first_indices_lem :
    (l : List LoopDim) → All IsWithinOption (first_indices l) × (place (first_indices l) ≡ 0)
unfolding first_indices place left_index
first_indices_lem [] = (tt, refl)
first_indices_lem (d ∷ l) =
    let (h, z) = first_indices_lem l in
    elim (first_index_cases d) [
      | inl e ↦ rw e ((tt, h), z)
      | inr (r, e) ↦
          let (w, q) = left_index_lem r in rw e ((w, h), (omega (arith, q, ap (λ k. size r * k) z)))
    ]

-- Stepping the indices of a foreach loop by `next_indices`, from the first ones, comes to any given tuple
-- of indices within the bounds of the dimensions after as many steps as the tuple's place among them,
-- which is below their number, and after that number of steps no indices are left.
pub rounds_lem :
    (dims : List LoopDim) (t : List (Option Index))
    → ranges_of t ≡ ranges_of (first_indices dims)
    → All IsWithinOption t
    → (place t < tuples (first_indices dims))
      × (rounds (place t) (first_indices dims) ≡ some t)
      × (rounds (tuples (first_indices dims)) (first_indices dims) ≡ none)
rounds_lem dims t e w =
    let l = first_indices dims in
    let (h, z) = first_indices_lem dims in
    let o : place t < tuples l = omega (arith, place-tuples t w, tuples-ranges_of t l e) in
    let (m, f, g, s, v) = rounds-place (place t) l h (omega arith) in
    (
      o,
      f ∙ ap some (place_inj m t v w (s ∙ sym e) (omega arith)),
      rounds-end (tuples l) l h (omega arith),
    )
