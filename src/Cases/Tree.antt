-- ===== src/Cases/Tree.antt =====
-- src/cases.h and src/cases.cc: Switch, Case, their lowering (`copy_into`, `lower`, `trivial`), and
-- RTLIL's rules, which it makes. A statement is a number that identifies it; `transfer_attrs` enters
-- the statement's attributes in the rule, here as the statement itself.
use yosys_slang.Base.{
  ℕ, Bool, true, false, ◌&&◌, not, Option, none, some, List, [], ◌∷◌, if◌then◌else◌,
}
use yosys_slang.Rtlil.{SigSpec}
use yosys_slang.Variables.{VariableBits}

-- `RTLIL::SigSig`.
abbrev pub SigSig : Type 0
SigSig = SigSpec × SigSpec

pub record Action : Type 0 where
  pub lvalue : VariableBits
  pub mask : SigSpec
  pub unmasked_rvalue : SigSpec

mutual
  pub data Case : Type 0 where
    make_case : Option ℕ → List SigSpec → List Action → Switches → List SigSig → Case

  pub data Switch : Type 0 where
    make_switch : Option ℕ → SigSpec → Cases → Bool → Bool → Switch

  -- `std::vector<Switch *>`.
  pub data Switches : Type 0 where
    no_switch : Switches
    add_switch : Switch → Switches → Switches

  -- `std::vector<Case *>`.
  pub data Cases : Type 0 where
    no_case : Cases
    add_case : Case → Cases → Cases

mutual
  -- `RTLIL::CaseRule`: statement, compare, actions and switches.
  pub data CaseRule : Type 0 where
    case_rule : Option ℕ → List SigSpec → List SigSig → SwitchRules → CaseRule

  -- `RTLIL::SwitchRule`: statement, full_case, parallel_case, signal and cases.
  pub data SwitchRule : Type 0 where
    switch_rule : Option ℕ → Bool → Bool → SigSpec → CaseRules → SwitchRule

  pub data SwitchRules : Type 0 where
    no_rule : SwitchRules
    add_rule : SwitchRule → SwitchRules → SwitchRules

  pub data CaseRules : Type 0 where
    no_case_rule : CaseRules
    add_case_rule : CaseRule → CaseRules → CaseRules

abbrev pub is_empty_list {ℓ} : {A : Type ℓ} → List A → Bool
is_empty_list [] = true
is_empty_list (x ∷ l) = false

abbrev pub has_no_statement : Option ℕ → Bool
has_no_statement none = true
has_no_statement (some s) = false

-- `cases.size() == 1 && cases[0]->compare.empty()`.
abbrev pub is_only_default : Cases → Bool
is_only_default (add_case (make_case st compare actions switches aux) no_case) =
    is_empty_list compare
is_only_default _ = false

-- `Switch::trivial`.
unfoldable pub trivial : Switch → Bool
trivial (make_switch st signal cases full_case parallel_case) =
    is_empty_list signal
    && has_no_statement st
    && not full_case
    && not parallel_case
    && is_only_default cases

-- `!cases[0]->statement`.
abbrev pub first_has_no_statement : Switch → Bool
first_has_no_statement
      (make_switch st signal (add_case (make_case st' compare actions switches aux) l) f p) =
    has_no_statement st'
first_has_no_statement _ = false

-- A switch without a signal, whose one case has these actions, unless there are none.
unfoldable pub wrap : List SigSig → SwitchRules → SwitchRules
wrap [] rules = rules
wrap (a ∷ l) rules =
    add_rule
      (switch_rule none false false []
        (add_case_rule (case_rule none [] (a ∷ l) no_rule) no_case_rule))
      rules

unfoldable mutual
  -- `copy_into`, of a rule without actions and switches; also `Case::lower`.
  pub lower_case : Case → CaseRule
  lower_case (make_case st compare actions switches aux) =
      case_rule st compare aux (lower_switches switches)

  -- The loop of `copy_into`. The last switch is replaced by the switches inside it where it is trivial.
  pub lower_switches : Switches → SwitchRules
  lower_switches no_switch = no_rule
  lower_switches (add_switch sw no_switch) =
      let inside = flatten sw in
      let whole = add_rule (lower_switch sw) no_rule in
      if trivial sw && first_has_no_statement sw then inside else whole
  lower_switches (add_switch sw (add_switch sw' l)) =
      add_rule (lower_switch sw) (lower_switches (add_switch sw' l))

  -- The inner loop of `copy_into`: what stands in place of a trivial switch.
  pub flatten : Switch → SwitchRules
  flatten (make_switch st signal cases f p) = flatten_first cases

  pub flatten_first : Cases → SwitchRules
  flatten_first no_case = no_rule
  flatten_first (add_case (make_case st compare actions switches aux) l) =
      wrap aux (lower_switches switches)

  -- `Switch::lower`.
  pub lower_switch : Switch → SwitchRule
  lower_switch (make_switch st signal cases full_case parallel_case) =
      switch_rule st full_case parallel_case signal (lower_cases cases)

  pub lower_cases : Cases → CaseRules
  lower_cases no_case = no_case_rule
  lower_cases (add_case c l) = add_case_rule (lower_case c) (lower_cases l)
