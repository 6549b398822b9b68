-- ===== src/Statements/Context.antt =====
-- src/statements.h: SwitchHelper, on the tree of cases that a process builds. A pointer to an open case
-- is a level of the tree: the innermost one is in `frame`, its actions are those of the process, and
-- the empty switches that it was descended through since the branch was entered are in `outer`.
use yosys_slang.Base.{
  ℕ, zero, suc, Bool, true, false, ◌&&◌, not, Option, none, some, List, [], ◌∷◌, ◌++◌,
  if◌then◌else◌, ◌==◌, length, log_assert, ◌>>=◌, ◌>>◌,
}
use yosys_slang.Rtlil.{SigBit, SigSpec, same_sigbit, is_fully_def}
use yosys_slang.Variables.{Symbol}
use yosys_slang.Cases.{
  SigSig, Action, Case, Switch, Switches, Cases, make_case, make_switch, no_switch, add_switch,
  no_case, add_case,
}
use yosys_slang.State.{Map, save, restore}
use yosys_slang.Procedural.{Process}
use yosys_slang.Procedural.Unrolling.{UnrollLimit}
use yosys_slang.Statements.Merge.{Updates, finish_values}

-- A case that is being built.
pub record Frame : Type 0 where
  pub statement : Option ℕ
  pub compare : List SigSpec
  pub switches : Switches
  pub aux_actions : List SigSig

pub data Diag : Type 0 where
  missing_stop_condition wait_unsupported generic_timing_unsyn unsupported : ℕ → Diag

pub record Context : Type 0 where
  pub process : Process
  pub frame : Frame
  pub outer : List (Frame × List Action)
  pub next_wire : ℕ
  pub unroll : UnrollLimit
  -- `scope_nest_level`: each scope as often as it was entered.
  pub scopes : List ℕ
  pub diags : List Diag

abbrev pub empty_frame : List SigSpec → Frame
empty_frame compare = record {
  statement = none;
  compare = compare;
  switches = no_switch;
  aux_actions = [];
}

unfoldable pub count_switches : Switches → ℕ
count_switches no_switch = 0
count_switches (add_switch sw l) = suc (count_switches l)

-- A switch takes the place that it was given when it was added.
unfoldable pub insert_switch : ℕ → Switch → Switches → Switches
insert_switch zero sw l = add_switch sw l
insert_switch (suc n) sw no_switch = add_switch sw no_switch
insert_switch (suc n) sw (add_switch x l) = add_switch x (insert_switch n sw l)

unfoldable pub close : Frame → List Action → Case
close f actions = make_case f.statement f.compare actions f.switches f.aux_actions

-- The case that the levels make up, from the innermost one outwards.
unfoldable pub close_all : Case → List (Frame × List Action) → Case
unfolding close insert_switch count_switches
close_all c [] = c
close_all c ((f, actions) ∷ l) =
    let sw = make_switch none [] (add_case c no_case) false false in
    close_all
      (close (record f { switches = insert_switch (count_switches f.switches) sw f.switches })
        actions)
      l

-- `current_case = current_case->add_switch({})->add_case({})`.
unfoldable pub descend : Context → Context
descend c = record c {
  outer = (c.frame, c.process.actions) ∷ c.outer;
  frame = empty_frame [];
  process = record c.process { actions = [] };
}

-- One branch that was left: its case, and what it updated.
pub record Branch : Type 0 where
  pub rule : Case
  pub updates : Updates

pub record SwitchHelper : Type 0 where
  pub statement : Option ℕ
  pub signal : SigSpec
  pub full_case : Bool
  pub parallel_case : Bool
  -- The place of the switch in the parent, and how deep the parent is.
  pub place : ℕ
  pub depth : ℕ
  -- The parent, while a branch is entered.
  pub parent : Frame
  pub parent_actions : List Action
  pub parent_outer : List (Frame × List Action)
  pub save_map : Map
  pub entered : Bool
  pub branches : List Branch

-- The constructor of SwitchHelper.
unfoldable pub new_switch : SigSpec → Option ℕ → Context → SwitchHelper
unfolding count_switches
new_switch signal statement c = record {
  statement = statement;
  signal = signal;
  full_case = false;
  parallel_case = false;
  place = count_switches c.frame.switches;
  depth = length c.outer;
  parent = c.frame;
  parent_actions = c.process.actions;
  parent_outer = c.outer;
  save_map = [];
  entered = false;
  branches = [];
}

-- `enter_branch`; the case's statement is set next to each call.
unfoldable pub enter_branch :
    List SigSpec → Option ℕ → SwitchHelper → Context → Option (SwitchHelper × Context)
unfolding save
enter_branch compare statement h c = do
  log_assert (not h.entered)
  log_assert (length c.outer == h.depth)
  let (v, saved) = save c.process.vstate []
  some (
    record h {
      entered = true;
      save_map = saved;
      parent = c.frame;
      parent_actions = c.process.actions;
      parent_outer = c.outer;
    },
    record c {
      frame = record (empty_frame compare) { statement = statement };
      outer = [];
      process = record c.process { vstate = v; actions = [] };
    },
  )

-- `exit_branch`.
unfoldable pub exit_branch : (Symbol → ℕ) → SwitchHelper → Context → Option (SwitchHelper × Context)
unfolding restore close close_all
exit_branch rank h c = do
  log_assert h.entered
  (v, _, target, source) ← restore rank c.process.vstate h.save_map
  some (
    record h {
      entered = false;
      branches =
          h.branches
          ++ (record {
            rule = close_all (close c.frame c.process.actions) c.outer;
            updates = (target, source);
          }
              ∷ []);
    },
    record c {
      frame = h.parent;
      outer = h.parent_outer;
      process = record c.process { vstate = v; actions = h.parent_actions };
    },
  )

unfoldable pub same_signal : SigSpec → SigSpec → Bool
same_signal [] [] = true
same_signal (a ∷ l) (b ∷ k) = same_sigbit a b && same_signal l k
same_signal _ _ = false

-- A branch whose one value to compare with is a constant other than that of the signal.
unfoldable pub is_dead : List SigSpec → SigSpec → Bool
unfolding same_signal
is_dead (v ∷ []) signal = is_fully_def v && is_fully_def signal && not (same_signal signal v)
is_dead _ signal = false

-- `branch`.
unfoldable pub branch :
    (Symbol → ℕ)
    → List SigSpec
    → Option ℕ
    → (Context → Option Context)
    → SwitchHelper × Context
    → Option (SwitchHelper × Context)
unfolding is_dead enter_branch exit_branch
branch rank compare statement f (h, c) =
    if is_dead compare h.signal
    then some (h, c)
    else (do (h', c') ← enter_branch compare statement h c; d ← f c'; exit_branch rank h' d)

abbrev pub add_aux : List SigSig → Case → Case
add_aux l (make_case st compare actions switches aux) =
    make_case st compare actions switches (aux ++ l)

unfoldable pub close_cases : List Branch → List (List SigSig) → Cases
close_cases (b ∷ l) (aux ∷ r) = add_case (add_aux aux b.rule) (close_cases l r)
close_cases _ _ = no_case

unfoldable pub updates_of : List Branch → List Updates
updates_of [] = []
updates_of (b ∷ l) = b.updates ∷ updates_of l

-- `finish`. Nothing is evaluated between the last branch and the call, so that the current case is the
-- parent.
unfoldable pub finish :
    (Symbol → ℕ → SigBit) → (Symbol → ℕ) → SwitchHelper → Context → Option Context
unfolding finish_values updates_of close_cases insert_switch
finish wire rank h c = do
  m ← finish_values wire rank c.process.vstate c.next_wire (updates_of h.branches)
  let sw =
      make_switch h.statement h.signal (close_cases h.branches m.branches) h.full_case
        h.parallel_case
  some (record c {
    frame = record c.frame {
      switches = insert_switch h.place sw c.frame.switches;
      aux_actions = c.frame.aux_actions ++ m.result.defaults;
    };
    process = record c.process { vstate = m.result.vstate };
    next_wire = m.result.next_wire;
  })
