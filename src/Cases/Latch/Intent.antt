-- ===== src/Cases/Latch/Intent.antt =====
-- src/cases.h, `insert_latch_signaling`: what a tree of cases does to the staging and enable signals,
-- with its actions in order. `seen` is the one signal that is looked at; the value of a mask or a
-- right-hand side is `val`'s.
use yosys_slang.Base.{
  ℕ, ◌≡◌, refl, Bool, true, false, ◌&&◌, Option, List, [], ◌∷◌, ◌++◌, if◌then◌else◌, arith,
}
use yosys_slang.Rtlil.{SigBit, SigSpec, State, s1, state, same_state, same_sigbit}
use yosys_slang.Variables.{unpack}
use yosys_slang.Cases.Tree.{
  SigSig, Action, Case, Switch, Switches, Cases, make_case, make_switch, no_switch, add_switch,
  no_case, add_case,
}
use yosys_slang.Cases.Flatten.{run_actions, matches, run_case, run_switches, run_switch}
use yosys_slang.Cases.Latch.{Hit, Mapping, hits_of, mask_switch, prepend}

module _ (val : SigBit → State) (seen : SigBit) where
  abbrev pub put : SigBit → State → State → State
  put signal new old = if same_sigbit signal seen then new else old

  -- An assignment, as the signal `seen` sees it.
  unfoldable pub assign_bits : SigSpec → SigSpec → State → State
  assign_bits (s ∷ l) (v ∷ r) old = assign_bits l r (put s (val v) old)
  assign_bits _ _ old = old

  abbrev pub assign : SigSig → State → State
  assign a old = assign_bits a.0 a.1 old

  -- All bits have the same values.
  unfoldable pub selects : SigSpec → SigSpec → Bool
  selects [] [] = true
  selects (s ∷ l) (v ∷ r) = same_state (val s) (val v) && selects l r
  selects _ _ = false

  -- What an action does at one bit: where the mask is 1 the value is staged and the latch enabled.
  unfoldable pub effect : Hit → State → State
  effect h old =
      if same_state (val h.mask) s1 then put h.enable s1 (put h.staging (val h.value) old) else old

  unfoldable pub effects : List Hit → State → State
  unfolding effect
  effects [] old = old
  effects (h ∷ l) old = effects l (effect h old)

  unfoldable pub intent_actions : Mapping → List Action → State → State
  unfolding effects
  intent_actions mapped [] old = old
  intent_actions mapped (a ∷ l) old =
      intent_actions mapped l
        (effects (hits_of mapped (unpack a.lvalue) a.mask a.unmasked_rvalue) old)

  unfoldable mutual
    unfolding intent_actions run_actions matches

    -- The case with its actions in order, each after the other, in place of the signaling.
    pub intent_case : Mapping → Case → State → State
    intent_case mapped (make_case st compare actions switches aux) old =
        intent_switches mapped switches
          (intent_actions mapped actions (run_actions assign selects aux old))

    pub intent_switches : Mapping → Switches → State → State
    intent_switches mapped no_switch old = old
    intent_switches mapped (add_switch sw l) old =
        intent_switches mapped l (intent_switch mapped sw old)

    pub intent_switch : Mapping → Switch → State → State
    intent_switch mapped (make_switch st signal cases f p) old =
        intent_first mapped signal cases old

    pub intent_first : Mapping → SigSpec → Cases → State → State
    intent_first mapped signal no_case old = old
    intent_first mapped signal (add_case (make_case st compare actions switches aux) l) old =
        let this =
          intent_switches mapped switches
            (intent_actions mapped actions (run_actions assign selects aux old)) in
        let rest = intent_first mapped signal l old in
        if matches assign selects signal compare then this else rest

  pub effects-append :
      (l r : List Hit) (old : State) → effects (l ++ r) old ≡ effects r (effects l old)
  unfolding effects
  effects-append [] r old = refl
  effects-append (h ∷ l) r old = effects-append l r (effect h old)

  pub run_actions-append :
      (l r : List SigSig) (old : State)
      → run_actions assign selects (l ++ r) old
        ≡ run_actions assign selects r (run_actions assign selects l old)
  unfolding run_actions
  run_actions-append [] r old = refl
  run_actions-append (a ∷ l) r old = run_actions-append l r (assign a old)

  -- A switch on a mask does what its bit of the action does.
  pub mask_switch_lem :
      (st : Option ℕ) (h : Hit) (old : State)
      → ((s : State) → val (state s) ≡ s)
      → run_switch assign selects (mask_switch st h) old ≡ effect h old
  unfolding mask_switch effect run_case matches selects run_actions assign_bits
  mask_switch_lem st h old c = rw (c s1) (ground arith)

  pub prepend_lem :
      (st : Option ℕ) (hs : List Hit) (l : Switches) (old : State)
      → ((s : State) → val (state s) ≡ s)
      → run_switches assign selects (prepend st hs l) old
        ≡ run_switches assign selects l (effects hs old)
  unfolding prepend effects run_case
  prepend_lem st [] l old c = refl
  prepend_lem st (h ∷ hs) l old c =
      rw (mask_switch_lem st h old c) (prepend_lem st hs l (effect h old) c)
