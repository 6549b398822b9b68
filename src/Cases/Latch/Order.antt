-- ===== src/Cases/Latch/Order.antt =====
-- src/cases.h, `insert_latch_signaling`: the signaling against the actions in order. `seen` is the one
-- signal that is looked at; the value of a mask or a right-hand side is `val`'s.
use yosys_slang.Base.{
  ℕ, ◌≡◌, ◌≢◌, refl, sym, ap, ap₂, ◌∙◌, Bool, true, false, ◌&&◌, ◌||◌, not, Option, some, List, [],
  ◌∷◌, ◌++◌, map, if◌then◌else◌, Bool-cases, Option-cases, inl, inr, ◌⊎◌, arith, All, All-append,
  append_assoc, append-nil,
}
use yosys_slang.Rtlil.{SigBit, SigSpec, State, s1, state, is_state, same_sigbit, same_sigbit_iff}
use yosys_slang.Variables.{Symbol, VariableBit, unpack}
use yosys_slang.Variables.Sorting.{less_bit_irrefl}
use yosys_slang.Cases.Tree.{
  SigSig, Action, Case, Switch, Switches, Cases, make_case, make_switch, no_switch, add_switch,
  no_case, add_case,
}
use yosys_slang.Cases.Flatten.{run_actions, matches, run_case, run_switches, run_switch, run_first}
use yosys_slang.Cases.Latch.{
  Hit, Mapping, in_set, hits_of, split_hits, group, latch_actions, prepend, insert_latch_signaling,
  latch_switches, latch_switch, latch_cases,
}
use yosys_slang.Cases.Latch.Intent.{
  put, assign_bits, assign, selects, effect, effects, intent_actions, intent_case, intent_switches,
  intent_switch, intent_first, effects-append, run_actions-append, prepend_lem,
}

-- Distinct bits have distinct signals, and no signal both enables and stages.
abbrev pub IsSeparate : Mapping → Type 0
IsSeparate mapped =
    (a b : VariableBit) (p q : SigBit × SigBit)
    → mapped a ≡ some p
    → mapped b ≡ some q
    → (p.0 ≢ q.1) × (p.0 ≡ q.0 → a ≡ b) × (p.1 ≡ q.1 → a ≡ b)

true-false : true ≢ false
true-false e = cc

differs :
    (rank : Symbol → ℕ) {a b : VariableBit} (l : List VariableBit)
    → in_set rank a l ≡ false
    → in_set rank b l ≡ true
    → a ≢ b
differs rank l p q e = true-false (sym q ∙ ap (λ k. in_set rank k l) (sym e) ∙ p)

at_once :
    (rank : Symbol → ℕ) (h : Hit) (masked : List VariableBit)
    → (is_state s1 h.mask && not (in_set rank h.bit masked)) ≡ true
    → (h.mask ≡ state s1) × (in_set rank h.bit masked ≡ false)
at_once rank h masked e = ground arith

in_set_self :
    (rank : Symbol → ℕ) (b : VariableBit) (l : List VariableBit) → in_set rank b (b ∷ l) ≡ true
unfolding in_set
in_set_self rank b l = rw (less_bit_irrefl rank b) refl

in_set-cons :
    (rank : Symbol → ℕ) (b c : VariableBit) (l : List VariableBit)
    → in_set rank b l ≡ true
    → in_set rank b (c ∷ l) ≡ true
unfolding in_set
in_set-cons rank b c l h = ground (arith, h)

-- The hit is in the dictionary.
abbrev IsMapped : Mapping → Hit → Type 0
IsMapped mapped h = mapped h.bit ≡ some (h.enable, h.staging)

module _ (rank : Symbol → ℕ) (val : SigBit → State) (seen : SigBit) where
  module _ (mapped : Mapping) (separate : IsSeparate mapped) where
    touches : Hit → Bool
    touches h = same_sigbit h.enable seen || same_sigbit h.staging seen

    idle : (h : Hit) (old : State) → touches h ≡ false → effect val seen h old ≡ old
    unfolding effect touches
    idle h old e = ground arith

    touched : (h : Hit) → touches h ≡ true → (h.enable ≡ seen) ⊎ (h.staging ≡ seen)
    unfolding touches
    touched h e = elim (Bool-cases (same_sigbit h.enable seen)) [
      | inl t ↦ inl ((same_sigbit_iff h.enable seen).0 t)
      | inr t ↦ inr ((same_sigbit_iff h.staging seen).0 (ground arith))
    ]

    one_bit :
        (h k : Hit)
        → IsMapped mapped h
        → IsMapped mapped k
        → (h.enable ≡ seen) ⊎ (h.staging ≡ seen)
        → (k.enable ≡ seen) ⊎ (k.staging ≡ seen)
        → h.bit ≡ k.bit
    one_bit h k p q (inl a) (inl b) = (separate h.bit k.bit _ _ p q).1 (a ∙ sym b)
    one_bit h k p q (inl a) (inr b) = absurd ((separate h.bit k.bit _ _ p q).0 (a ∙ sym b))
    one_bit h k p q (inr a) (inl b) = absurd ((separate k.bit h.bit _ _ q p).0 (b ∙ sym a))
    one_bit h k p q (inr a) (inr b) = (separate h.bit k.bit _ _ p q).2 (a ∙ sym b)

    -- Hits of distinct bits may change places.
    effect_comm :
        (h k : Hit) (old : State)
        → IsMapped mapped h
        → IsMapped mapped k
        → h.bit ≢ k.bit
        → effect val seen h (effect val seen k old) ≡ effect val seen k (effect val seen h old)
    effect_comm h k old p q n = elim (Bool-cases (touches h)) [
      | inr t ↦ idle h (effect val seen k old) t ∙ ap (effect val seen k) (sym (idle h old t))
      | inl t ↦ elim (Bool-cases (touches k)) [
        | inr u ↦ ap (effect val seen h) (idle k old u) ∙ sym (idle k (effect val seen h old) u)
        | inl u ↦ absurd (n (one_bit h k p q (touched h t) (touched k u)))
      ]
    ]

    -- A hit may pass hits of other bits.
    effect-effects :
        (h : Hit) (l : List Hit) (masked : List VariableBit) (old : State)
        → IsMapped mapped h
        → All (λ k. IsMapped mapped k × (in_set rank k.bit masked ≡ true)) l
        → in_set rank h.bit masked ≡ false
        → effect val seen h (effects val seen l old) ≡ effects val seen l (effect val seen h old)
    unfolding effects
    effect-effects h [] masked old p q n = refl
    effect-effects h (k ∷ l) masked old p q n =
        effect-effects h l masked (effect val seen k old) p q.1 n
        ∙ ap (effects val seen l) (effect_comm h k old p q.0.0 (differs rank masked n q.0.1))

    -- The two assignments of a group do what its hits do.
    stagings_unseen :
        (l : List Hit) (b : VariableBit) (e s : SigBit) (old : State)
        → mapped b ≡ some (e, s)
        → e ≡ seen
        → All (IsMapped mapped) l
        → assign_bits val seen (map (λ k. k.staging) l) (map (λ k. k.value) l) old ≡ old
    unfolding assign_bits
    stagings_unseen [] b e s old p q a = refl
    stagings_unseen (h ∷ l) b e s old p q a = elim (Bool-cases (same_sigbit h.staging seen)) [
      | inl t ↦ absurd (
          (separate b h.bit (e, s) (h.enable, h.staging) p a.0).0
            (q ∙ sym ((same_sigbit_iff h.staging seen).0 t)))
      | inr t ↦ rw t (stagings_unseen l b e s old p q a.1)
    ]

    enables_late :
        (h : Hit) (l : List Hit) (old : State)
        → IsMapped mapped h
        → All (IsMapped mapped) l
        → assign_bits val seen
            (map (λ k. k.staging) l)
            (map (λ k. k.value) l)
            (put val seen h.enable s1 old)
          ≡ put val seen h.enable s1
              (assign_bits val seen (map (λ k. k.staging) l) (map (λ k. k.value) l) old)
    enables_late h l old p a = elim (Bool-cases (same_sigbit h.enable seen)) [
      | inl t ↦
          rw t (
            stagings_unseen l h.bit h.enable h.staging s1 p ((same_sigbit_iff h.enable seen).0 t) a)
      | inr t ↦ rw t refl
    ]

    only-IsMapped :
        (l : List Hit)
        → All (λ h. IsMapped mapped h × (h.mask ≡ state s1)) l
        → All (IsMapped mapped) l
    only-IsMapped [] a = tt
    only-IsMapped (h ∷ l) a = (a.0.0, only-IsMapped l a.1)

    effect_full :
        (h : Hit) (old : State)
        → ((s : State) → val (state s) ≡ s)
        → h.mask ≡ state s1
        → effect val seen h old
          ≡ put val seen h.enable s1 (put val seen h.staging (val h.value) old)
    unfolding effect
    effect_full h old c e = rw (e, c s1) refl

    group_lem :
        (l : List Hit) (old : State)
        → ((s : State) → val (state s) ≡ s)
        → All (λ h. IsMapped mapped h × (h.mask ≡ state s1)) l
        → assign_bits val seen
            (map (λ k. k.enable) l)
            (map (λ k. state s1) l)
            (assign_bits val seen (map (λ k. k.staging) l) (map (λ k. k.value) l) old)
          ≡ effects val seen l old
    unfolding effects effect assign_bits
    group_lem [] old c a = refl
    group_lem (h ∷ l) old c a =
        rw
          (
            c s1,
            sym (
                enables_late h l (put val seen h.staging (val h.value) old) a.0.0
                  (only-IsMapped l a.1)),
          )
          (group_lem l (put val seen h.enable s1 (put val seen h.staging (val h.value) old)) c a.1
            ∙ ap (effects val seen l) (sym (effect_full h old c a.0.1)))

    run-group :
        (l : List Hit) (old : State)
        → ((s : State) → val (state s) ≡ s)
        → All (λ h. IsMapped mapped h × (h.mask ≡ state s1)) l
        → run_actions (assign val seen) (selects val seen) (group l) old ≡ effects val seen l old
    unfolding run_actions group assign_bits
    run-group [] old c a = group_lem [] old c a
    run-group (h ∷ l) old c a = group_lem (h ∷ l) old c a

    hits_of-IsMapped :
        (l : List VariableBit) (mask value : SigSpec)
        → All (IsMapped mapped) (hits_of mapped l mask value)
    unfolding hits_of
    hits_of-IsMapped [] mask value = tt
    hits_of-IsMapped (b ∷ l) [] value = tt
    hits_of-IsMapped (b ∷ l) (m ∷ mask) [] = tt
    hits_of-IsMapped (b ∷ l) (m ∷ mask) (v ∷ value) = elim (Option-cases (mapped b)) [
      | inl e ↦ rw (All, hits_of, e) (hits_of-IsMapped l mask value)
      | inr (p, e) ↦ rw (All, hits_of, e) (e, hits_of-IsMapped l mask value)
    ]

    -- Hits in front of a switch's, each of a bit that has a switch already.
    abbrev IsWaiting : List VariableBit → List Hit → Type 0
    IsWaiting masked = All (λ k. IsMapped mapped k × (in_set rank k.bit masked ≡ true))

    IsWaiting-cons :
        (b : VariableBit) (masked : List VariableBit) (l : List Hit)
        → IsWaiting masked l
        → IsWaiting (b ∷ masked) l
    IsWaiting-cons b masked [] w = tt
    IsWaiting-cons b masked (h ∷ l) w =
        ((w.0.0, in_set-cons rank h.bit b masked w.0.1), IsWaiting-cons b masked l w.1)

    -- Making some assignments at once, before the waiting ones, changes no signal's last value.
    split_hits_lem :
        (l waiting : List Hit) (masked : List VariableBit) (old : State)
        → ((s : State) → val (state s) ≡ s)
        → All (IsMapped mapped) l
        → IsWaiting masked waiting
        → let r = split_hits rank l masked in
          (effects val seen l (effects val seen waiting old)
            ≡ effects val seen (waiting ++ r.1) (effects val seen r.0 old))
          × IsWaiting r.2 (waiting ++ r.1)
          × All (λ h. IsMapped mapped h × (h.mask ≡ state s1)) r.0
    unfolding split_hits effects
    split_hits_lem [] waiting masked old c a w = rw (append-nil waiting) (refl, w, tt)
    split_hits_lem (h ∷ l) waiting masked old c a w =
        elim (Bool-cases (is_state s1 h.mask && not (in_set rank h.bit masked))) [
          | inl e ↦
              let ih = split_hits_lem l waiting masked (effect val seen h old) c a.1 w in
              let (one, new) = at_once rank h masked e in
              rw e (
                ap (effects val seen l) (effect-effects h waiting masked old a.0 w new) ∙ ih.0,
                ih.1,
                ((a.0, one), ih.2),
              )
          | inr e ↦
              let (ih, waits, ones) =
                split_hits_lem l (waiting ++ (h ∷ [])) (h.bit ∷ masked) old c a.1 (
                  All-append _ waiting (h ∷ []) (IsWaiting-cons h.bit masked waiting w)
                    ((a.0, in_set_self rank h.bit masked), tt)) in
              rw (e, sym (append_assoc waiting (h ∷ []) (split_hits rank l (h.bit ∷ masked)).1))
                (
                  ap (effects val seen l) (sym (effects-append val seen waiting (h ∷ []) old)) ∙ ih,
                  waits,
                  ones,
                )
        ]

    latch_actions_lem :
        (l : List Action) (waiting : List Hit) (masked : List VariableBit) (old : State)
        → ((s : State) → val (state s) ≡ s)
        → IsWaiting masked waiting
        → intent_actions val seen mapped l (effects val seen waiting old)
          ≡ effects val seen (waiting ++ (latch_actions rank mapped l masked).1) (
              run_actions
                (assign val seen)
                (selects val seen)
                (latch_actions rank mapped l masked).0
                old)
    unfolding intent_actions latch_actions run_actions
    latch_actions_lem [] waiting masked old c w = rw (append-nil waiting) refl
    latch_actions_lem (a ∷ l) waiting masked old c w =
        let hits = hits_of mapped (unpack a.lvalue) a.mask a.unmasked_rvalue in
        let r = split_hits rank hits masked in
        let (same, waits, ones) =
          split_hits_lem hits waiting masked old c
            (hits_of-IsMapped (unpack a.lvalue) a.mask a.unmasked_rvalue) w in
        ap (intent_actions val seen mapped l) same
        ∙ latch_actions_lem l (waiting ++ r.1) r.2 (effects val seen r.0 old) c waits
        ∙ ap₂ (effects val seen) (append_assoc waiting r.1 (latch_actions rank mapped l r.2).1) (
            ap
              (run_actions (assign val seen) (selects val seen) (latch_actions rank mapped l r.2).0)
              (sym (run-group r.0 old c ones))
            ∙ sym (run_actions-append val seen (group r.0) (latch_actions rank mapped l r.2).0 old))

    -- The signaling of one case, before the switches inside it.
    signaling :
        (st : Option ℕ) (actions : List Action) (l : Switches) (aux : List SigSig) (old : State)
        → ((s : State) → val (state s) ≡ s)
        → run_switches
            (assign val seen)
            (selects val seen)
            (prepend st (latch_actions rank mapped actions []).1 l)
            (run_actions
              (assign val seen)
              (selects val seen)
              (aux ++ (latch_actions rank mapped actions []).0)
              old)
          ≡ run_switches (assign val seen) (selects val seen) l (
              intent_actions val seen mapped actions
                (run_actions (assign val seen) (selects val seen) aux old))
    unfolding effects
    signaling st actions l aux old c =
        prepend_lem val seen st (latch_actions rank mapped actions []).1 l _ c
        ∙ ap (run_switches (assign val seen) (selects val seen) l) (
            ap (effects val seen (latch_actions rank mapped actions []).1)
              (run_actions-append val seen aux (latch_actions rank mapped actions []).0 old)
            ∙ sym (
                latch_actions_lem actions [] []
                  (run_actions (assign val seen) (selects val seen) aux old) c tt))

    mutual
      unfolding insert_latch_signaling run_case intent_case matches

      latch_switches_lem :
          (l : Switches) (old : State)
          → ((s : State) → val (state s) ≡ s)
          → run_switches (assign val seen) (selects val seen) (latch_switches rank mapped l) old
            ≡ intent_switches val seen mapped l old
      latch_switches_lem no_switch old c = refl
      latch_switches_lem (add_switch sw l) old c =
          rw (latch_switch_lem sw old c)
            (latch_switches_lem l (intent_switch val seen mapped sw old) c)

      latch_switch_lem :
          (sw : Switch) (old : State)
          → ((s : State) → val (state s) ≡ s)
          → run_switch (assign val seen) (selects val seen) (latch_switch rank mapped sw) old
            ≡ intent_switch val seen mapped sw old
      latch_switch_lem (make_switch st signal cases f p) old c = latch_cases_lem signal cases old c

      latch_cases_lem :
          (signal : SigSpec) (l : Cases) (old : State)
          → ((s : State) → val (state s) ≡ s)
          → run_first (assign val seen) (selects val seen) signal (latch_cases rank mapped l) old
            ≡ intent_first val seen mapped signal l old
      latch_cases_lem signal no_case old c = refl
      latch_cases_lem signal (add_case (make_case st compare actions switches aux) l) old c =
          rw (latch_cases_lem signal l old c) (
            ap
              (λ this.
                if matches (assign val seen) (selects val seen) signal compare
                then this
                else intent_first val seen mapped signal l old)
              (signaling st actions (latch_switches rank mapped switches) aux old c
                ∙ latch_switches_lem switches _ c))

    -- After `insert_latch_signaling` the tree gives every signal the value that the actions give it when
    -- they are run in order: for each bit whose mask is 1 the staging signal gets the value and the enable
    -- signal gets 1. Distinct bits have distinct signals, and `val` keeps constants.
    pub insert_latch_signaling_lem :
        (c : Case) (old : State)
        → ((s : State) → val (state s) ≡ s)
        → run_case (assign val seen) (selects val seen) (insert_latch_signaling rank mapped c) old
          ≡ intent_case val seen mapped c old
    unfolding insert_latch_signaling run_case intent_case
    insert_latch_signaling_lem (make_case st compare actions switches aux) old c =
        signaling st actions (latch_switches rank mapped switches) aux old c
        ∙ latch_switches_lem switches _ c
