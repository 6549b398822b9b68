-- ===== src/Addressing/Lanes.antt =====
-- src/addressing.cc: the loops that take a signal apart into one lane for each bit of an element and
-- put the lanes together again.
use yosys_slang.Base.{
  ℕ, zero, suc, ◌+◌, ◌-◌, ◌*◌, ◌/◌, ◌≤◌, ◌<◌, ◌≡◌, ◌≢◌, refl, ap, sym, ◌∙◌, List, [], ◌∷◌, length,
  set, get_elem?, get_or, Option, none, some, map, ◌>>=◌, arith, ltb, if◌then◌else◌, length-set,
  get_or_outside, dec_lt, ℕ_discrete,
}

lanes_ne : (s i j t u : ℕ) → i < j → j < s → i + t * s ≢ j + u * s
lanes_ne s i j zero u h k e = absurd (grind arith)
lanes_ne s i j (suc t) zero h k e = absurd (grind arith)
lanes_ne s i j (suc t) (suc u) h k e = lanes_ne s i j t u h k (grind arith)

module _ {ℓ} {A : Type ℓ} where
  -- `for (int j = i; j < val.size(); j += stride) fin.append(val[j]);`, with fuel.
  unfoldable pub lane_from : ℕ → A → List A → ℕ → ℕ → List A
  lane_from zero x val stride j = []
  lane_from (suc fuel) x val stride j =
      let rest = lane_from fuel x val stride (j + stride) in
      if ltb j (length val) then get_or val j x ∷ rest else []

  -- `for (int j = 0; j < fout.size(); j++) ret[j * stride + i] = fout[j];`
  unfoldable pub write_lane : List A → List A → ℕ → ℕ → List A
  write_lane ret [] stride place = ret
  write_lane ret (b ∷ fout) stride place = write_lane (set ret place b) fout stride (place + stride)

  -- The loop over the lanes, `n` of them from `i` on.
  unfoldable pub write_lanes : (ℕ → List A) → List A → ℕ → ℕ → ℕ → List A
  unfolding write_lane
  write_lanes lane ret stride i zero = ret
  write_lanes lane ret stride i (suc n) =
      write_lanes lane (write_lane ret (lane i) stride i) stride (i + 1) n

  -- `for (auto bit : ret) log_assert(bit != RTLIL::Sm);`. A place that no lane was written to is none; the
  -- outputs of cells are not the marker.
  unfoldable pub written : List (Option A) → Option (List A)
  written [] = some []
  written (none ∷ l) = none
  written (some b ∷ l) = do r ← written l; some (b ∷ r)

  pub written-some : (l : List A) → written (map some l) ≡ some l
  unfolding written
  written-some [] = refl
  written-some (b ∷ l) = rw (written-some l) refl

  pub get_elem?-map-some :
      (l : List A) (i : ℕ) (b : A)
      → get_elem? l i ≡ some b
      → get_elem? (map some l) i ≡ some (some b)
  get_elem?-map-some [] i b e = cc
  get_elem?-map-some (x ∷ l) zero b e = ap some e
  get_elem?-map-some (x ∷ l) (suc i) b e = get_elem?-map-some l i b e

  set_elsewhere : (l : List A) (i j : ℕ) (v : A) → i ≢ j → get_elem? (set l i v) j ≡ get_elem? l j
  set_elsewhere [] i j v h = refl
  set_elsewhere (x ∷ l) zero zero v h = absurd (h refl)
  set_elsewhere (x ∷ l) zero (suc j) v h = refl
  set_elsewhere (x ∷ l) (suc i) zero v h = refl
  set_elsewhere (x ∷ l) (suc i) (suc j) v h = set_elsewhere l i j v (λ e. h (ap suc e))

  set_here : (l : List A) (i : ℕ) (v : A) → i < length l → get_elem? (set l i v) i ≡ some v
  set_here [] i v h = elim h [ ]
  set_here (x ∷ l) zero v h = refl
  set_here (x ∷ l) (suc i) v h = set_here l i v (omega arith)

  -- With enough fuel a lane holds every `stride`-th bit from `j` on.
  pub get_or-lane_from :
      (fuel : ℕ) (x : A) (val : List A) (stride j t : ℕ)
      → length val < j + fuel
      → 0 < stride
      → get_or (lane_from fuel x val stride j) t x ≡ get_or val (j + t * stride) x
  unfolding lane_from
  get_or-lane_from zero x val stride j t h s =
      sym (get_or_outside val (j + t * stride) x (grind arith))
  get_or-lane_from (suc fuel) x val stride j zero h s = elim (dec_lt j (length val)) [
    | yes p ↦ ground arith
    | no p ↦ ground (arith, get_or_outside val j x)
  ]
  get_or-lane_from (suc fuel) x val stride j (suc t) h s = elim (dec_lt j (length val)) [
    | yes p ↦ ground (
      arith,
      get_or-lane_from fuel x val stride (j + stride) t (omega arith) s
          ∙ ap (λ k. get_or val k x) {x = j + stride + t * stride} {y = j + suc t * stride}
              (grind arith),
    )
    | no p ↦ ground (arith, get_or_outside val (j + suc t * stride) x (grind arith))
  ]

  length-write_lane :
      (ret fout : List A) (stride p : ℕ) → length (write_lane ret fout stride p) ≡ length ret
  unfolding write_lane
  length-write_lane ret [] stride p = refl
  length-write_lane ret (b ∷ fout) stride p =
      length-write_lane (set ret p b) fout stride (p + stride) ∙ length-set ret p b

  pub length-write_lanes :
      (lane : ℕ → List A) (ret : List A) (stride i n : ℕ)
      → length (write_lanes lane ret stride i n) ≡ length ret
  unfolding write_lanes
  length-write_lanes lane ret stride i zero = refl
  length-write_lanes lane ret stride i (suc n) =
      length-write_lanes lane (write_lane ret (lane i) stride i) stride (i + 1) n
      ∙ length-write_lane ret (lane i) stride i

  write_lane_elsewhere :
      (ret fout : List A) (stride p q : ℕ)
      → ((t : ℕ) → q ≢ p + t * stride)
      → get_elem? (write_lane ret fout stride p) q ≡ get_elem? ret q
  unfolding write_lane
  write_lane_elsewhere ret [] stride p q h = refl
  write_lane_elsewhere ret (b ∷ fout) stride p q h =
      write_lane_elsewhere (set ret p b) fout stride (p + stride) q (λ t e. h (suc t) (grind arith))
      ∙ set_elsewhere ret p q b (λ e. h 0 (omega arith))

  write_lane_here :
      (ret fout : List A) (stride p t : ℕ) (x : A)
      → 0 < stride
      → t < length fout
      → p + t * stride < length ret
      → get_elem? (write_lane ret fout stride p) (p + t * stride) ≡ some (get_or fout t x)
  unfolding write_lane
  write_lane_here ret [] stride p t x s h k = elim h [ ]
  write_lane_here ret (b ∷ fout) stride p zero x s h k =
      ap (get_elem? (write_lane (set ret p b) fout stride (p + stride))) {x = p + 0 * stride}
        {y = p} (omega arith)
      ∙ write_lane_elsewhere (set ret p b) fout stride (p + stride) p (λ t e. grind arith)
      ∙ set_here ret p b (omega arith)
  write_lane_here ret (b ∷ fout) stride p (suc t) x s h k =
      ap (get_elem? (write_lane (set ret p b) fout stride (p + stride))) {x = p + suc t * stride}
        {y = p + stride + t * stride} (grind arith)
      ∙ write_lane_here (set ret p b) fout stride (p + stride) t x s (omega arith)
          (grind (arith, length-set ret p b))

  write_lanes_elsewhere :
      (lane : ℕ → List A) (ret : List A) (s i n j t : ℕ)
      → j < i
      → i + n ≤ s
      → get_elem? (write_lanes lane ret s i n) (j + t * s) ≡ get_elem? ret (j + t * s)
  unfolding write_lanes
  write_lanes_elsewhere lane ret s i zero j t h k = refl
  write_lanes_elsewhere lane ret s i (suc n) j t h k =
      write_lanes_elsewhere lane (write_lane ret (lane i) s i) s (i + 1) n j t (omega arith)
        (omega arith)
      ∙ write_lane_elsewhere ret (lane i) s i (j + t * s) (λ u. lanes_ne s j i t u h (omega arith))

  -- After the loops the bit `j + t * stride` is bit `t` of lane `j`.
  pub write_lanes_lem :
      (lane : ℕ → List A) (ret : List A) (s i n j t : ℕ) (x : A)
      → i ≤ j
      → j < i + n
      → i + n ≤ s
      → t < length (lane j)
      → j + t * s < length ret
      → get_elem? (write_lanes lane ret s i n) (j + t * s) ≡ some (get_or (lane j) t x)
  unfolding write_lanes
  write_lanes_lem lane ret s i zero j t x h k m p q = absurd (omega arith)
  write_lanes_lem lane ret s i (suc n) j t x h k m p q = elim (ℕ_discrete i j) [
    | yes e ↦ rw e (
        write_lanes_elsewhere lane (write_lane ret (lane j) s j) s (j + 1) n j t (omega arith)
          (omega arith)
        ∙ write_lane_here ret (lane j) s j t x (omega arith) p q)
    | no ne ↦
        write_lanes_lem lane (write_lane ret (lane i) s i) s (i + 1) n j t x (omega arith)
          (omega arith) (omega arith) p (omega (arith, length-write_lane ret (lane i) s i))
  ]

pub ceil_bound : (t s i n : ℕ) → i < s → i + t * s < n → t < (n - i + s - 1) / s
ceil_bound t s i n h k = grind arith
