-- ===== src/Statements/Guards.antt =====
-- src/statements.h and src/procedural.cc: what the handlers of StatementExecutor do around a body. A
-- guard's destructor runs behind the body.
use yosys_slang.Base.{
  ℕ, Bool, true, false, ◌||◌, Option, none, some, List, [], ◌∷◌, if◌then◌else◌, ◌==◌, drop, ◌>>=◌,
}
use yosys_slang.Rtlil.{SigBit, SigSpec, State, s1, state, is_state, is_fully_const}
use yosys_slang.Variables.{Symbol, Variable, VariableBits, escape_flag}
use yosys_slang.Builder.Gates.{Cells}
use yosys_slang.Procedural.{EscapeKind, Process, do_simple_assign, register_escape, signal_escape}
use yosys_slang.Procedural.Unrolling.{unroll_tick, exit_unrolling}
use yosys_slang.Statements.Context.{Context, new_switch, enter_branch, exit_branch, finish}

-- `SigSpec::as_bool`.
unfoldable pub as_bool : SigSpec → Bool
as_bool [] = false
as_bool (b ∷ l) = is_state s1 b || as_bool l

-- A signal decides what is done: it is not known yet, or it is true or false.
unfoldable pub by_signal :
    SigSpec
    → (Context → Option Context)
    → (Context → Option Context)
    → (Context → Option Context)
    → Context
    → Option Context
unfolding as_bool
by_signal signal unknown if_true if_false c = elim (is_fully_const signal) [
  | false ↦ unknown c
  | true ↦ elim (as_bool signal) [ true ↦ if_true c | false ↦ if_false c ]
]

unfoldable pub on_process : (Process → Option Process) → Context → Option Context
on_process f c = do p ← f c.process; some (record c { process = p })

unfoldable pub erase_scope : ℕ → List ℕ → Option (List ℕ)
erase_scope s [] = none
erase_scope s (t ∷ l) =
    let rest = (do r ← erase_scope s l; some (t ∷ r)) in if s == t then some l else rest

-- EnterAutomaticScopeGuard, which does nothing without a scope.
unfoldable pub with_scope : Option ℕ → (Context → Option Context) → Context → Option Context
unfolding erase_scope
with_scope none f c = f c
with_scope (some s) f c = do
  d ← f (record c { scopes = s ∷ c.scopes })
  l ← erase_scope s d.scopes
  some (record d { scopes = l })

module _ (is_inferred_memory : Symbol → Bool) (cells : Cells) (wire : Symbol → ℕ → SigBit) where
  unfoldable pub assign : VariableBits → SigSpec → Context → Option Context
  unfolding on_process do_simple_assign
  assign lhs value c = on_process (do_simple_assign is_inferred_memory cells wire lhs value true) c

  -- RegisterEscapeConstructGuard around a body, which is given the flag.
  unfoldable pub with_escape :
      EscapeKind → Option ℕ → (Variable → Context → Option Context) → Context → Option Context
  unfolding on_process register_escape
  with_escape kind subroutine f c = do
    d ← on_process (register_escape is_inferred_memory cells wire kind subroutine) c
    e ← f (escape_flag c.process.flag_counter) d
    some (record e { process = record e.process { escape_stack = drop 1 e.process.escape_stack } })

  -- `signal_escape`, for the first frame of the kind.
  unfoldable pub escape : EscapeKind → Context → Option Context
  unfolding on_process signal_escape
  escape kind c = on_process (signal_escape is_inferred_memory cells wire kind) c

  module _ (rank : Symbol → ℕ) where
    -- A switch with one branch, which the rest of the statements or rounds are inside of; it is left when
    -- they are done, which `sw_stack` is for.
    unfoldable pub in_switch :
        SigSpec → State → ℕ → ℕ → (Context → Option Context) → Context → Option Context
    unfolding new_switch enter_branch exit_branch finish
    in_switch signal value statement body f c = do
      (h, d) ←
          enter_branch ((state value ∷ []) ∷ []) (some body) (new_switch signal (some statement) c)
            c
      e ← f d
      (h', e') ← exit_branch rank h e
      finish wire rank h' e'

-- `unroll_tick`, with what follows where it permits another round.
unfoldable pub tick : ℕ → (Context → Option Context) → Context → Option Context
unfolding unroll_tick
tick statement f c =
    let (go, u) = unroll_tick statement c.unroll in
    let d = record c { unroll = u } in elim go [ true ↦ f d | false ↦ some d ]

-- `exit_unrolling`.
unfoldable pub leave_unrolling : Context → Option Context
unfolding exit_unrolling
leave_unrolling c = do u ← exit_unrolling c.unroll; some (record c { unroll = u })
