-- ===== src/Procedural/Unrolling.antt =====
-- src/procedural.cc: UnrollLimitTracking. A loop is a number that identifies its statement.
use yosys_slang.Base.{
  ℕ, zero, suc, ◌+◌, ◌<◌, ◌≤◌, ◌≡◌, refl, sym, ap, ap₂, subst, length-append, ◌∙◌, Bool, true,
  false, Option, none, some, List, [], ◌∷◌, ◌++◌, if◌then◌else◌, ◌==◌, ltb, length, arith,
}

pub record UnrollLimit : Type 0 where
  pub limit : ℕ
  pub unrolling : ℕ
  pub unroll_counter : ℕ
  pub loops : List ℕ
  pub error_issued : Bool
  -- The diagnostics, each with the loops of its notes.
  pub diags : List (List ℕ)

unfoldable pub enter_unrolling : UnrollLimit → UnrollLimit
enter_unrolling u =
    if u.unrolling == 0
    then record u { unrolling = 1; unroll_counter = 0; error_issued = false; loops = [] }
    else record u { unrolling = suc u.unrolling }

-- `none` is the assertion that there is an unrolling to leave.
unfoldable pub exit_unrolling : UnrollLimit → Option UnrollLimit
exit_unrolling u = elim u.unrolling [ zero ↦ none | suc n ↦ some (record u { unrolling = n }) ]

unfoldable pub insert_loop : ℕ → List ℕ → List ℕ
insert_loop s [] = s ∷ []
insert_loop s (t ∷ l) = if s == t then t ∷ l else t ∷ insert_loop s l

unfoldable pub other_loops : ℕ → List ℕ → List ℕ
other_loops s [] = []
other_loops s (t ∷ l) = let rest = other_loops s l in if s == t then rest else t ∷ rest

unfoldable pub unroll_tick : ℕ → UnrollLimit → Bool × UnrollLimit
unfolding insert_loop other_loops
unroll_tick symbol u =
    if u.error_issued
    then (false, u)
    else if ltb u.limit (suc u.unroll_counter)
    then (
      false,
      record u {
        loops = insert_loop symbol u.loops;
        unroll_counter = suc u.unroll_counter;
        error_issued = true;
        diags = u.diags ++ (other_loops symbol (insert_loop symbol u.loops) ∷ []);
      },
    )
    else (
      true,
      record u { loops = insert_loop symbol u.loops; unroll_counter = suc u.unroll_counter },
    )

-- The ticks of loops one after the other: what each answers, and the state behind them.
unfoldable pub unroll_ticks : List ℕ → UnrollLimit → List Bool × UnrollLimit
unfolding unroll_tick
unroll_ticks [] u = ([], u)
unroll_ticks (s ∷ l) u =
    let (granted, v) = unroll_tick s u in let (rest, w) = unroll_ticks l v in (granted ∷ rest, w)

-- The answers to ticks of which `left` are allowed.
abbrev pub granted : ℕ → List ℕ → List Bool
granted left [] = []
granted zero (s ∷ l) = false ∷ granted zero l
granted (suc left) (s ∷ l) = true ∷ granted left l

tick_refused : (s : ℕ) (u : UnrollLimit) → u.error_issued ≡ true → unroll_tick s u ≡ (false, u)
unfolding unroll_tick
tick_refused s u e = ground (arith, e)

tick_granted :
    (s : ℕ) (u : UnrollLimit)
    → u.error_issued ≡ false
    → u.unroll_counter < u.limit
    → ((unroll_tick s u).0 ≡ true)
      × ((unroll_tick s u).1.error_issued ≡ false)
      × ((unroll_tick s u).1.unroll_counter ≡ suc u.unroll_counter)
      × ((unroll_tick s u).1.limit ≡ u.limit)
      × ((unroll_tick s u).1.diags ≡ u.diags)
unfolding unroll_tick
tick_granted s u e h =
    (ground (arith, e), ground (arith, e), ground (arith, e), ground (arith, e), ground (arith, e))

tick_exhausted :
    (s : ℕ) (u : UnrollLimit)
    → u.error_issued ≡ false
    → u.limit ≤ u.unroll_counter
    → ((unroll_tick s u).0 ≡ false)
      × ((unroll_tick s u).1.error_issued ≡ true)
      × (length (unroll_tick s u).1.diags ≡ suc (length u.diags))
unfolding unroll_tick
tick_exhausted s u e h = (
  ground (arith, e),
  ground (arith, e),
  ground (arith, e, length-append u.diags (other_loops s (insert_loop s u.loops) ∷ [])),
)

after_error :
    (l : List ℕ) (u : UnrollLimit)
    → u.error_issued ≡ true
    → ((unroll_ticks l u).0 ≡ granted 0 l) × ((unroll_ticks l u).1.diags ≡ u.diags)
unfolding unroll_ticks
after_error [] u e = (refl, refl)
after_error (s ∷ l) u e =
    let (a, b) = after_error l u e in
    let t = tick_refused s u e in
    (
      ap₂ ◌∷◌ (ap (λ r. r.0) t) (ap (λ r. (unroll_ticks l r.1).0) t ∙ a),
      ap (λ r. (unroll_ticks l r.1).1.diags) t ∙ b,
    )

ticks_from :
    (l : List ℕ) (u : UnrollLimit) (left : ℕ)
    → u.error_issued ≡ false
    → u.unroll_counter + left ≡ u.limit
    → ((unroll_ticks l u).0 ≡ granted left l)
      × (length (unroll_ticks l u).1.diags
          ≡ length u.diags + (if ltb left (length l) then 1 else 0))
unfolding unroll_ticks
ticks_from [] u left e h = (refl, ground arith)
ticks_from (s ∷ l) u zero e h =
    let (a, b, c) = tick_exhausted s u e (omega arith) in
    let (x, y) = after_error l (unroll_tick s u).1 b in
    (ap₂ ◌∷◌ a x, ap length y ∙ c ∙ ground arith)
ticks_from (s ∷ l) u (suc left) e h =
    let (a, b, c, d, f) = tick_granted s u e (omega arith) in
    let (x, y) = ticks_from l (unroll_tick s u).1 left b (omega (arith, c, d)) in
    (ap₂ ◌∷◌ a x, y ∙ ap (λ k. length k + (if ltb left (length l) then 1 else 0)) f ∙ ground arith)

entered :
    (u : UnrollLimit)
    → u.unrolling ≡ 0
    → enter_unrolling u
      ≡ record u { unrolling = 1; unroll_counter = 0; error_issued = false; loops = [] }
unfolding enter_unrolling
entered u h = ground (arith, h)

-- When the outermost loop is entered, ticks are granted exactly until the limit, whichever loops they
-- are of, and all later ones are refused; one diagnostic is issued if there are more ticks than the
-- limit, and none otherwise.
pub unroll_ticks_lem :
    (u : UnrollLimit) (l : List ℕ)
    → u.unrolling ≡ 0
    → ((unroll_ticks l (enter_unrolling u)).0 ≡ granted u.limit l)
      × (length (unroll_ticks l (enter_unrolling u)).1.diags
          ≡ length u.diags + (if ltb u.limit (length l) then 1 else 0))
unroll_ticks_lem u l h =
    subst
      (λ w.
        ((unroll_ticks l w).0 ≡ granted u.limit l)
        × (length (unroll_ticks l w).1.diags
            ≡ length u.diags + (if ltb u.limit (length l) then 1 else 0)))
      (sym (entered u h))
      (ticks_from l
        (record u { unrolling = 1; unroll_counter = 0; error_issued = false; loops = [] }) u.limit
        refl (omega arith))
