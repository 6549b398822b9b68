-- ===== src/Statements/Executor.antt =====
-- src/statements.h: the handlers of StatementExecutor.
mod Design
mod Steps
unfoldable pub use Design.*
unfoldable pub use Steps.*
use yosys_slang.Base.{
  ℕ, zero, suc, ◌^◌, ◌-◌, ◌%◌, ◌/◌, Bool, true, false, ◌&&◌, ◌||◌, not, Option, none, some, List,
  [], ◌∷◌, ◌++◌, if◌then◌else◌, ◌==◌, length, replicate, log_assert, ◌>>=◌, ◌>>◌,
}
use mathlib.Core.List.{reverse}
use yosys_slang.Base.Int.{ℤ, pos, negsuc}
use yosys_slang.Rtlil.{
  SigBit, SigSpec, s0, s1, sx, sz, sa, state, is_state, is_fully_const, is_fully_def,
}
use yosys_slang.Variables.{Symbol, Variable, VariableBits, of_variable, invalid, bitwidth}
use yosys_slang.Builder.Gates.{Cells, reduce_bool, logic_or}
use yosys_slang.State.{evaluate}
use yosys_slang.Procedural.{loop, loop_body, function_body, get_disable_flag, current_subroutine}
use yosys_slang.Procedural.Values.{substitute_rvalue}
use yosys_slang.Procedural.Unrolling.{enter_unrolling}
use yosys_slang.Statements.Context.{
  Context, Diag, missing_stop_condition, wait_unsupported, generic_timing_unsyn, unsupported,
  SwitchHelper, new_switch, branch, finish, descend,
}
use yosys_slang.Statements.Guards.{
  by_signal, as_bool, with_scope, assign, with_escape, escape, in_switch, tick, leave_unrolling,
}
use yosys_slang.Statements.Foreach.{Index, first_indices, next_indices}
use yosys_slang.Statements.Syntax.{
  Expr, CaseCondition, wildcard_just_z, wildcard_x_or_z, inside, UniquePriorityCheck, no_check,
  unique, unique0, priority, LoopDim, Stmt, Stmts, MaybeStmt, Items, expression_statement, block,
  statement_list, conditional, case_statement, while_loop, for_loop, foreach_loop, variable_decl,
  return_statement, timed, break_statement, continue_statement, empty, wait_statement,
  unsupported_statement, no_stmt, add_stmt, absent, present, no_item, add_item,
}

module _ (lang : Language) (is_inferred_memory : Symbol → Bool) (cells : Cells)
    (wire : Symbol → ℕ → SigBit) (rank : Symbol → ℕ) where
  unfoldable mutual
    unfolding two_branches with_scope list_step reduce_bool new_switch branch finish descend
        case_switch eval_compares as_bool in_loop while_rounds for_rounds foreach_rounds
        first_indices set_iterators init_nonstatic_variable handle_return escape report eval_all
        timed_context

    -- `visit`: the handler for the statement.
    pub execute : Stmt → Context → Option Context
    execute (expression_statement e) c = do (v, d) ← lang.eval e c; some d
    execute (block scope body) c = with_scope scope (execute body) c
    execute (statement_list l) c = execute_list l c
    execute (conditional condition if_true if_false) c = do
      (v, d) ← lang.eval condition c
      let cond = reduce_bool cells v
      elim (is_fully_def cond) [
        | true ↦ elim (as_bool cond) [ true ↦ execute if_true d | false ↦ execute_else if_false d ]
        | false ↦
            two_branches lang is_inferred_memory cells wire rank
              (lang.number (conditional condition if_true if_false)) cond (lang.number if_true)
              (execute if_true) (branch_else if_false) d
      ]
    execute (case_statement k check subject items otherwise) c = do
      (dispatch, d) ← lang.eval subject c
      (h, e) ← execute_items k subject dispatch items (
        case_switch lang is_inferred_memory cells wire rank k check dispatch
            (lang.number (case_statement k check subject items otherwise)) d,
        d,
      )
      (h', e') ← branch_else otherwise (h, e)
      f ← finish wire rank h' e'
      some (descend f)
    execute (while_loop condition body) c =
        in_loop lang is_inferred_memory cells wire rank
          (λ fuel flag.
            while_rounds lang is_inferred_memory cells wire rank fuel
              (lang.number (while_loop condition body)) (lang.number body) condition flag
              (execute body))
          c
    execute (for_loop initializers none steps body) c = do
      d ← eval_all lang is_inferred_memory cells wire rank initializers c
      some (
          report lang is_inferred_memory cells wire rank
            (missing_stop_condition (lang.number (for_loop initializers none steps body))) d)
    execute (for_loop initializers (some stop) steps body) c = do
      d ← eval_all lang is_inferred_memory cells wire rank initializers c
      in_loop lang is_inferred_memory cells wire rank
          (λ fuel flag.
            for_rounds lang is_inferred_memory cells wire rank fuel
              (lang.number (for_loop initializers (some stop) steps body)) (lang.number body) stop
              steps flag (execute body))
          d
    execute (foreach_loop dims body) c = do
      d ← set_iterators lang is_inferred_memory cells wire rank dims (first_indices dims) c
      in_loop lang is_inferred_memory cells wire rank
          (λ fuel flag.
            foreach_rounds lang is_inferred_memory cells wire rank fuel
              (lang.number (foreach_loop dims body)) (lang.number body) (reverse dims)
              (first_indices (reverse dims)) flag (execute body))
          d
    execute (variable_decl symbol) c = elim (lang.is_static_lifetime symbol) [
      | true ↦ some c
      | false ↦ init_nonstatic_variable lang is_inferred_memory cells wire rank symbol c
    ]
    execute (return_statement value) c =
        handle_return lang is_inferred_memory cells wire rank value c
    execute (timed body) c =
        execute body
          (timed_context lang is_inferred_memory cells wire rank (lang.number (timed body)) c)
    execute break_statement c = escape is_inferred_memory cells wire loop c
    execute continue_statement c = escape is_inferred_memory cells wire loop_body c
    execute empty c = some c
    execute wait_statement c = some (
        report lang is_inferred_memory cells wire rank
          (wait_unsupported (lang.number wait_statement)) c)
    execute unsupported_statement c = some (
        report lang is_inferred_memory cells wire rank
          (unsupported (lang.number unsupported_statement)) c)

    -- `handle(const ast::StatementList &)`.
    pub execute_list : Stmts → Context → Option Context
    execute_list no_stmt c = some c
    execute_list (add_stmt s l) c =
        list_step lang is_inferred_memory cells wire rank (lang.number s)
          (λ x. do y ← execute s x; execute_list l y) c

    pub execute_else : MaybeStmt → Context → Option Context
    execute_else absent c = some c
    execute_else (present s) c = execute s c

    -- The default branch of a switch, if there is one.
    pub branch_else : MaybeStmt → SwitchHelper × Context → Option (SwitchHelper × Context)
    branch_else absent r = some r
    branch_else (present s) r = branch rank [] (some (lang.number s)) (execute s) r

    -- The loop over the items of a case statement.
    pub execute_items :
        CaseCondition
        → Expr
        → SigSpec
        → Items
        → SwitchHelper × Context
        → Option (SwitchHelper × Context)
    execute_items k subject dispatch no_item r = some r
    execute_items k subject dispatch (add_item exprs s l) (h, c) = do
      (compares, d) ←
          eval_compares lang is_inferred_memory cells wire rank k subject dispatch exprs c
      log_assert (not (length compares == 0))
      r ← branch rank compares (some (lang.number s)) (execute s) (h, d)
      execute_items k subject dispatch l r
