-- ===== src/Cases/Flatten.antt =====
-- src/cases.h, `copy_into`: what the tree does, read off the source's switches and cases, and off
-- RTLIL's rules.
use yosys_slang.Base.{
  ℕ, ◌≡◌, refl, ◌∙◌, Bool, true, ◌&&◌, ◌||◌, Option, List, [], ◌∷◌, if◌then◌else◌, Bool-cases, inl,
  inr, arith,
}
use yosys_slang.Rtlil.{SigSpec}
use yosys_slang.Cases.Tree.{
  SigSig, Case, Switch, Switches, Cases, make_case, make_switch, no_switch, add_switch, no_case,
  add_case, CaseRule, SwitchRule, SwitchRules, CaseRules, case_rule, switch_rule, no_rule, add_rule,
  no_case_rule, add_case_rule, trivial, first_has_no_statement, is_only_default, wrap, lower_case,
  lower_switches, flatten, flatten_first, lower_switch, lower_cases,
}

&&_left : (b c : Bool) → (b && c) ≡ true → b ≡ true
&&_left b c h = ground arith

trivial_default :
    (st : Option ℕ) (signal : SigSpec) (l : Cases) (f p : Bool)
    → trivial (make_switch st signal l f p) ≡ true
    → is_only_default l ≡ true
unfolding trivial
trivial_default st signal l f p h = ground arith

-- `assign` makes one assignment in the values of the signals, and `selects` compares a signal with a value.
module _ {Env : Type 0} (assign : SigSig → Env → Env) (selects : SigSpec → SigSpec → Bool) where
  unfoldable pub run_actions : List SigSig → Env → Env
  run_actions [] env = env
  run_actions (a ∷ l) env = run_actions l (assign a env)

  -- A case without values to compare with is a default.
  unfoldable pub matches : SigSpec → List SigSpec → Bool
  matches signal [] = true
  matches signal (v ∷ []) = selects signal v
  matches signal (v ∷ w ∷ l) = selects signal v || matches signal (w ∷ l)

  unfoldable mutual
    unfolding run_actions matches

    -- The actions of a case come first, then its switches.
    pub run_case : Case → Env → Env
    run_case (make_case st compare actions switches aux) env =
        run_switches switches (run_actions aux env)

    pub run_switches : Switches → Env → Env
    run_switches no_switch env = env
    run_switches (add_switch sw l) env = run_switches l (run_switch sw env)

    pub run_switch : Switch → Env → Env
    run_switch (make_switch st signal cases f p) env = run_first signal cases env

    -- The first case that matches.
    pub run_first : SigSpec → Cases → Env → Env
    run_first signal no_case env = env
    run_first signal (add_case (make_case st compare actions switches aux) l) env =
        let this = run_switches switches (run_actions aux env) in
        let rest = run_first signal l env in if matches signal compare then this else rest

  unfoldable mutual
    unfolding run_actions matches

    pub run_case_rule : CaseRule → Env → Env
    run_case_rule (case_rule st compare actions switches) env =
        run_switch_rules switches (run_actions actions env)

    pub run_switch_rules : SwitchRules → Env → Env
    run_switch_rules no_rule env = env
    run_switch_rules (add_rule sw l) env = run_switch_rules l (run_switch_rule sw env)

    pub run_switch_rule : SwitchRule → Env → Env
    run_switch_rule (switch_rule st f p signal cases) env = run_first_rule signal cases env

    pub run_first_rule : SigSpec → CaseRules → Env → Env
    run_first_rule signal no_case_rule env = env
    run_first_rule signal (add_case_rule (case_rule st compare actions switches) l) env =
        let this = run_switch_rules switches (run_actions actions env) in
        let rest = run_first_rule signal l env in if matches signal compare then this else rest

  run-wrap :
      (aux : List SigSig) (rules : SwitchRules) (env : Env)
      → run_switch_rules (wrap aux rules) env ≡ run_switch_rules rules (run_actions aux env)
  unfolding wrap run_switch_rules run_case_rule matches run_actions
  run-wrap [] rules env = refl
  run-wrap (a ∷ l) rules env = refl

  mutual
    unfolding lower_case run_case run_case_rule matches

    -- What a switch with one default case does is what that case does.
    flatten_first_lem :
        (signal : SigSpec) (l : Cases) (env : Env)
        → is_only_default l ≡ true
        → run_switch_rules (flatten_first l) env ≡ run_first signal l env
    flatten_first_lem signal no_case env h = cc
    flatten_first_lem signal (add_case (make_case st [] actions switches aux) no_case) env h =
        run-wrap aux (lower_switches switches) env
        ∙ lower_switches_lem switches (run_actions aux env)
    flatten_first_lem signal (add_case (make_case st (v ∷ compare) actions switches aux) no_case)
          env h =
        cc
    flatten_first_lem signal (add_case (make_case st compare actions switches aux) (add_case c l))
          env h =
        cc

    flatten_lem :
        (sw : Switch) (env : Env)
        → (trivial sw && first_has_no_statement sw) ≡ true
        → run_switch_rules (flatten sw) env ≡ run_switch sw env
    flatten_lem (make_switch st signal cases f p) env h =
        flatten_first_lem signal cases env (trivial_default st signal cases f p (&&_left _ _ h))

    lower_switches_lem :
        (l : Switches) (env : Env) → run_switch_rules (lower_switches l) env ≡ run_switches l env
    lower_switches_lem no_switch env = refl
    lower_switches_lem (add_switch sw no_switch) env =
        elim (Bool-cases (trivial sw && first_has_no_statement sw)) [
          | inl e ↦ rw e (flatten_lem sw env e)
          | inr e ↦ rw e (lower_switch_lem sw env)
        ]
    lower_switches_lem (add_switch sw (add_switch sw' l)) env =
        rw (lower_switch_lem sw env) (lower_switches_lem (add_switch sw' l) (run_switch sw env))

    lower_switch_lem :
        (sw : Switch) (env : Env) → run_switch_rule (lower_switch sw) env ≡ run_switch sw env
    lower_switch_lem (make_switch st signal cases f p) env = lower_cases_lem signal cases env

    lower_cases_lem :
        (signal : SigSpec) (l : Cases) (env : Env)
        → run_first_rule signal (lower_cases l) env ≡ run_first signal l env
    lower_cases_lem signal no_case env = refl
    lower_cases_lem signal (add_case (make_case st compare actions switches aux) l) env =
        rw (lower_switches_lem switches (run_actions aux env), lower_cases_lem signal l env) refl

  -- The rule that `copy_into` makes assigns what the source's tree of cases assigns, whatever it
  -- flattens on the way.
  pub lower_case_lem : (c : Case) (env : Env) → run_case_rule (lower_case c) env ≡ run_case c env
  unfolding lower_case run_case run_case_rule
  lower_case_lem (make_case st compare actions switches aux) env =
      lower_switches_lem switches (run_actions aux env)
