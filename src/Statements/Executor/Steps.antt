-- ===== src/Statements/Executor/Steps.antt =====
-- src/statements.h: the parts of the handlers of StatementExecutor, in which a body is a function. A loop runs
-- on fuel.
use yosys_slang.Base.{
  ℕ, zero, suc, Bool, true, false, ◌||◌, not, Option, none, some, List, [], ◌∷◌, ◌++◌,
  if◌then◌else◌, ◌==◌, length, replicate, log_assert, ◌>>=◌, ◌>>◌,
}
use yosys_slang.Rtlil.{SigBit, SigSpec, s0, s1, sx, state, is_fully_const}
use yosys_slang.Variables.{Symbol, Variable, of_variable, invalid, bitwidth}
use yosys_slang.Builder.Gates.{Cells, reduce_bool, logic_or}
use yosys_slang.State.{evaluate}
use yosys_slang.Procedural.{loop, loop_body, function_body, get_disable_flag, current_subroutine}
use yosys_slang.Procedural.Values.{substitute_rvalue}
use yosys_slang.Procedural.Unrolling.{enter_unrolling}
use yosys_slang.Statements.Context.{
  Context, Diag, generic_timing_unsyn, SwitchHelper, new_switch, branch, finish, descend,
}
use yosys_slang.Statements.Guards.{
  by_signal, assign, with_escape, escape, in_switch, tick, leave_unrolling,
}
use yosys_slang.Statements.Foreach.{Index, next_indices}
use yosys_slang.Statements.Syntax.{Expr, CaseCondition, UniquePriorityCheck, LoopDim}
use yosys_slang.Statements.Executor.Design.{
  Language, const_32, match_any, matches_x, matches_z, is_inside, check_flags,
}

module _ (lang : Language) (is_inferred_memory : Symbol → Bool) (cells : Cells)
    (wire : Symbol → ℕ → SigBit) (rank : Symbol → ℕ) where
  -- `RTLILBuilder::LogicNot`.
  unfoldable pub logic_not : SigSpec → SigSpec
  logic_not a = if is_fully_const a then lang.const_logic_not a else lang.logic_not_cell a ∷ []

  unfoldable pub report : Diag → Context → Context
  report d c = record c { diags = c.diags ++ (d ∷ []) }

  unfoldable pub timed_context : ℕ → Context → Context
  unfolding report
  timed_context n c = if lang.ignore_timing then c else report (generic_timing_unsyn n) c

  unfoldable pub eval_all : List Expr → Context → Option Context
  eval_all [] c = some c
  eval_all (e ∷ l) c = do (v, d) ← lang.eval e c; eval_all l d

  -- One value that an item of a case statement compares with.
  unfoldable pub eval_compare :
      CaseCondition → Expr → SigSpec → Expr → Context → Option (SigSpec × Context)
  unfolding match_any matches_x matches_z is_inside
  eval_compare k subject dispatch e c =
      if is_inside k
      then (do
        log_assert (lang.is_integral subject)
        (b, d) ← lang.inside_comparison dispatch e c
        some (b ∷ [], d))
      else (do
        (v, d) ← lang.eval e c
        log_assert (length v == length dispatch)
        log_assert (not (matches_z k) || is_fully_const v)
        some (match_any (matches_x k) (matches_z k) v, d))

  -- The values of one item.
  unfoldable pub eval_compares :
      CaseCondition → Expr → SigSpec → List Expr → Context → Option (List SigSpec × Context)
  unfolding eval_compare
  eval_compares k subject dispatch [] c = some ([], c)
  eval_compares k subject dispatch (e ∷ l) c = do
    (v, d) ← eval_compare k subject dispatch e c
    (rest, d') ← eval_compares k subject dispatch l d
    some (v ∷ rest, d')

  -- The rounds of a while loop, from the evaluation of the condition on.
  unfoldable pub while_rounds :
      ℕ → ℕ → ℕ → Expr → Variable → (Context → Option Context) → Context → Option Context
  unfolding logic_not reduce_bool logic_or evaluate by_signal in_switch assign with_escape tick
      of_variable
  while_rounds zero statement body cond flag f c = none
  while_rounds (suc fuel) statement body cond flag f c = do
    (cv, d) ← lang.eval cond c
    break_rv ← evaluate wire d.process.vstate (of_variable flag 1)
    let joint_break = logic_or cells (logic_not (reduce_bool cells cv)) break_rv
    let round = λ (x : Context). (do
      y ← with_escape is_inferred_memory cells wire loop_body none (λ _. f) x
      tick statement (while_rounds fuel statement body cond flag f) y)
    by_signal joint_break
        (in_switch is_inferred_memory cells wire rank joint_break s0 statement body (λ x. do
          y ← assign is_inferred_memory cells wire (of_variable flag 1) (state s0 ∷ []) x
          round y))
        some round d

  -- What follows the body of a for or foreach loop: the rest of the rounds, unless the loop was left.
  unfoldable pub unless_broken :
      ℕ → ℕ → Variable → (Context → Option Context) → Context → Option Context
  unfolding substitute_rvalue of_variable by_signal in_switch
  unless_broken statement body flag f c = do
    break_rv ← substitute_rvalue wire (of_variable flag 1) c.process
    by_signal break_rv (in_switch is_inferred_memory cells wire rank break_rv s0 statement body f)
        some f c

  unfoldable pub for_rounds :
      ℕ
      → ℕ
      → ℕ
      → Expr
      → List Expr
      → Variable
      → (Context → Option Context)
      → Context
      → Option Context
  unfolding reduce_bool by_signal in_switch with_escape unless_broken eval_all tick
  for_rounds zero statement body stop steps flag f c = none
  for_rounds (suc fuel) statement body stop steps flag f c = do
    (cv, d) ← lang.eval stop c
    let cond = reduce_bool cells cv
    let round = λ (x : Context). (do
      y ← with_escape is_inferred_memory cells wire loop_body none (λ _. f) x
      unless_broken statement body flag
          (λ z. do
            w ← eval_all steps z
            tick statement (for_rounds fuel statement body stop steps flag f) w)
          y)
    by_signal cond (in_switch is_inferred_memory cells wire rank cond s1 statement body round) round
        some d

  unfoldable pub set_iterator : Option Symbol → Option Index → Context → Option Context
  unfolding assign const_32
  set_iterator (some v) (some x) c =
      assign is_inferred_memory cells wire (lang.variable v c) (const_32 x.value) c
  set_iterator _ _ c = some c

  -- `set_iterator_value` for the dimensions that have a loop variable and a range, the first one first.
  unfoldable pub set_iterators : List LoopDim → List (Option Index) → Context → Option Context
  unfolding set_iterator
  set_iterators (d ∷ l) (x ∷ r) c = do e ← set_iterator d.loop_var x c; set_iterators l r e
  set_iterators _ _ c = some c

  -- What follows the step of the indices: the iterators are set, and there is another round where an index
  -- was stepped.
  unfoldable pub next_round :
      Option (List (Option Index))
      → ℕ
      → List LoopDim
      → List (Option Index)
      → (List (Option Index) → Context → Option Context)
      → Context
      → Option Context
  unfolding set_iterators tick
  next_round none statement dims indices f c = set_iterators dims indices c
  next_round (some r) statement dims indices f c = do
    d ← set_iterators dims r c
    tick statement (f r) d

  -- The rounds of a foreach loop. The dimensions are those of `reversedDims`.
  unfoldable pub foreach_rounds :
      ℕ
      → ℕ
      → ℕ
      → List LoopDim
      → List (Option Index)
      → Variable
      → (Context → Option Context)
      → Context
      → Option Context
  unfolding with_escape unless_broken next_indices next_round
  foreach_rounds zero statement body dims indices flag f c = none
  foreach_rounds (suc fuel) statement body dims indices flag f c = do
    y ← with_escape is_inferred_memory cells wire loop_body none (λ _. f) c
    unless_broken statement body flag
        (next_round (next_indices indices) statement dims indices
          (λ r. foreach_rounds fuel statement body dims r flag f))
        y

  -- The value that a variable is initialized with: that of the initializer, or the default one.
  unfoldable pub initial_of : Option Expr → Symbol → Context → Option (SigSpec × Context)
  unfolding bitwidth
  initial_of (some e) symbol c = lang.eval e c
  initial_of none symbol c = elim (lang.default_value symbol) [
    | some v ↦ some (v, c)
    | none ↦ some (replicate (bitwidth (lang.variable symbol c)) (state sx), c)
  ]

  -- `init_nonstatic_variable`.
  unfoldable pub init_nonstatic_variable : Symbol → Context → Option Context
  unfolding assign bitwidth initial_of
  init_nonstatic_variable symbol c =
      let target = lang.variable symbol c in
      elim (bitwidth target == 0) [
        | true ↦ some c
        | false ↦ (do
          (v, d) ← initial_of (lang.initializer symbol) symbol c
          assign is_inferred_memory cells wire target v d)
      ]

  -- The value that is returned, if any, goes to the subroutine's return variable.
  unfoldable pub return_value : ℕ → Option Expr → Context → Option Context
  unfolding assign
  return_value subroutine none c = some c
  return_value subroutine (some e) c = do
    log_assert (lang.is_function subroutine)
    symbol ← lang.return_variable subroutine
    (v, d) ← lang.eval e c
    assign is_inferred_memory cells wire (lang.variable symbol c) v d

  -- `handle(const ast::ReturnStatement &)`.
  unfoldable pub handle_return : Option Expr → Context → Option Context
  unfolding current_subroutine return_value escape
  handle_return value c = do
    frame ← current_subroutine c.process.escape_stack
    subroutine ← frame
    d ← return_value subroutine value c
    escape is_inferred_memory cells wire function_body d

  -- The switch of a case statement.
  unfoldable pub case_switch :
      CaseCondition → UniquePriorityCheck → SigSpec → ℕ → Context → SwitchHelper
  unfolding new_switch is_inside check_flags
  case_switch k check dispatch statement c =
      record (new_switch (if is_inside k then state s1 ∷ [] else dispatch) (some statement) c) {
        full_case = (check_flags check).0;
        parallel_case = (check_flags check).1;
      }

  unfoldable pub disable_value : Variable → Context → Option SigSpec
  unfolding substitute_rvalue of_variable
  disable_value invalid c = some (state s0 ∷ [])
  disable_value v c = substitute_rvalue wire (of_variable v 1) c.process

  -- One statement of a list: what follows is inside a switch on the disable flag, is skipped, or follows.
  unfoldable pub list_step : ℕ → (Context → Option Context) → Context → Option Context
  unfolding get_disable_flag disable_value of_variable by_signal in_switch assign
  list_step statement f c =
      let flag = get_disable_flag c.process in
      do
        disable_rv ← disable_value flag c
        by_signal disable_rv
            (in_switch is_inferred_memory cells wire rank disable_rv s0 statement statement (λ x. do
              y ← assign is_inferred_memory cells wire (of_variable flag 1) (state s0 ∷ []) x
              f y))
            some f c

  unfoldable pub in_count :
      (ℕ → Variable → Context → Option Context) → Variable → Context → Option Context
  unfolding enter_unrolling leave_unrolling
  in_count rounds flag c = do
    d ← rounds (suc (suc c.unroll.limit)) flag (record c { unroll = enter_unrolling c.unroll })
    leave_unrolling d

  -- A loop with its guard, inside the count of unrolled loops (which the switches do not look at, so that
  -- they may be left before it is); behind it the case is descended through an
  -- empty switch.
  unfoldable pub in_loop : (ℕ → Variable → Context → Option Context) → Context → Option Context
  unfolding with_escape in_count descend
  in_loop rounds c = do
    d ← with_escape is_inferred_memory cells wire loop none (in_count rounds) c
    some (descend d)

  -- A conditional whose condition is not known: a switch with a branch for 1, and one for the else.
  unfoldable pub two_branches :
      ℕ
      → SigSpec
      → ℕ
      → (Context → Option Context)
      → (SwitchHelper × Context → Option (SwitchHelper × Context))
      → Context
      → Option Context
  unfolding new_switch branch finish descend
  two_branches n cond body f otherwise c = do
    (h, d) ← branch rank ((state s1 ∷ []) ∷ []) (some body) f (new_switch cond (some n) c, c)
    (h', e) ← otherwise (h, d)
    x ← finish wire rank h' e
    some (descend x)
