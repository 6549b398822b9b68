-- ===== src/Statements/Merge/Nets.antt =====
-- What the actions of RTLIL's cases mean: a bit of a net has the value of the last assignment to it.
use yosys_slang.Base.{
  ℕ, zero, suc, ◌+◌, ◌<◌, ◌≡◌, refl, sym, ap, subst, ◌∙◌, Bool, true, false, ◌||◌, All, get_elem?,
  some_inj, ◌≢◌, ◌⊎◌, Option, none, some, List, [], ◌∷◌, ◌++◌, if◌then◌else◌, arith, Bool-cases,
  inl, inr,
}
use yosys_slang.Rtlil.{SigBit, SigSpec, wire_bit, same_sigbit, same_sigbit_iff}
use yosys_slang.Cases.{SigSig}
use yosys_slang.Statements.Merge.Defs.{wire_bits}

abbrev pub Pairs : Type 0
Pairs = List (SigBit × SigBit)

unfoldable pub zip : SigSpec → SigSpec → Pairs
zip (w ∷ l) (d ∷ r) = (w, d) ∷ zip l r
zip _ _ = []

-- The assignments of single bits that a list of actions makes.
unfoldable pub flat : List SigSig → Pairs
unfolding zip
flat [] = []
flat ((l, r) ∷ actions) = zip l r ++ flat actions

unfoldable pub drives : Pairs → SigBit → Bool
drives [] w = false
drives ((u, d) ∷ l) w = same_sigbit u w || drives l w

-- The right side of the last assignment to a bit.
unfoldable pub last_source : Pairs → SigBit → Option SigBit
last_source [] w = none
last_source ((u, d) ∷ l) w = elim (last_source l w) [
  | some e ↦ some e
  | none ↦ if same_sigbit u w then some d else none
]

same_sigbit_refl : (w : SigBit) → same_sigbit w w ≡ true
same_sigbit_refl w = (same_sigbit_iff w w).1 refl

pub drives-append : (l k : Pairs) (w : SigBit) → drives (l ++ k) w ≡ (drives l w || drives k w)
unfolding drives
drives-append [] k w = refl
drives-append ((u, d) ∷ l) k w = ground (arith, drives-append l k w)

last_source-undriven : (l : Pairs) (w : SigBit) → drives l w ≡ false → last_source l w ≡ none
unfolding drives last_source
last_source-undriven [] w h = refl
last_source-undriven ((u, d) ∷ l) w h = ground (arith, last_source-undriven l w)

-- The bits of a wire from index `i` on are neither of another wire nor before that index.
pub drives-wire_bits :
    (w i n : ℕ) (r : SigSpec) (l : Pairs) (v j : ℕ)
    → (v ≢ w) ⊎ (j < i)
    → drives (zip (wire_bits w i n) r ++ l) (wire_bit v j) ≡ drives l (wire_bit v j)
unfolding wire_bits zip drives
drives-wire_bits w i zero r l v j h = refl
drives-wire_bits w i (suc n) [] l v j h = refl
drives-wire_bits w i (suc n) (d ∷ r) l v j h =
    ground
      (arith, drives-wire_bits w (i + 1) n r l v j, same_sigbit_iff (wire_bit w i) (wire_bit v j))

module _ {V : Type 0} (val : SigBit → V) where
  -- Each assignment holds that no later one replaces.
  abbrev pub Settles : Pairs → Type 0
  Settles [] = Unit {0}
  Settles ((w, d) ∷ l) = (drives l w ≡ false → val w ≡ val d) × Settles l

  pub Settles-last_source :
      (l : Pairs) → ((w d : SigBit) → last_source l w ≡ some d → val w ≡ val d) → Settles l
  unfolding last_source
  Settles-last_source [] h = tt
  Settles-last_source ((w, d) ∷ l) h = (
    λ e. h w d (rw (last_source-undriven l w e, same_sigbit_refl w) refl),
    Settles-last_source l (λ u c p. h u c (rw p refl)),
  )

  pub Settles_behind : (l k : Pairs) → Settles (l ++ k) → Settles k
  Settles_behind [] k h = h
  Settles_behind ((w, d) ∷ l) k h = Settles_behind l k h.1

  -- A bit that is driven, each time from one source, has the value of that source.
  pub Settles-drives :
      (l : Pairs) (w d : SigBit)
      → Settles l
      → drives l w ≡ true
      → All (λ p. p.0 ≡ w → p.1 ≡ d) l
      → val w ≡ val d
  unfolding drives
  Settles-drives [] w d s h a = cc
  Settles-drives ((u, e) ∷ l) w d s h a = elim (Bool-cases (drives l w)) [
    | inl p ↦ Settles-drives l w d s.1 p a.1
    | inr p ↦
        let q : u ≡ w = (same_sigbit_iff u w).0 (ground arith) in
        subst (λ k. val k ≡ val d) q (s.0 (rw q p) ∙ ap val (a.0 q))
  ]

  -- The bits of a wire that is driven by one action, and by none of those behind it.
  pub Settles-wire_bits :
      (w i n : ℕ) (r : SigSpec) (l : Pairs) (j : ℕ) (d : SigBit)
      → Settles (zip (wire_bits w i n) r ++ l)
      → get_elem? r j ≡ some d
      → j < n
      → drives l (wire_bit w (i + j)) ≡ false
      → val (wire_bit w (i + j)) ≡ val d
  unfolding wire_bits zip
  Settles-wire_bits w i zero r l j d s e h p = elim h [ ]
  Settles-wire_bits w i (suc n) [] l j d s e h p = cc
  Settles-wire_bits w i (suc n) (c ∷ r) l zero d s e h p =
      let q : i + 0 ≡ i = omega arith in
      let t : drives (zip (wire_bits w (i + 1) n) r ++ l) (wire_bit w i) ≡ false =
        drives-wire_bits w (i + 1) n r l w i (inr (omega arith))
        ∙ subst (λ k. drives l (wire_bit w k) ≡ false) q p in
      subst (λ k. val (wire_bit w k) ≡ val d) (sym q) (s.0 t ∙ ap val (some_inj c d e))
  Settles-wire_bits w i (suc n) (c ∷ r) l (suc j) d s e h p =
      let q : i + 1 + j ≡ i + suc j = omega arith in
      subst (λ k. val (wire_bit w k) ≡ val d) q
        (Settles-wire_bits w (i + 1) n r l j d s.1 e (omega arith)
          (subst (λ k. drives l (wire_bit w k) ≡ false) (sym q) p))
