-- ===== src/Statements/Discipline.antt =====
-- src/statements.h, StatementExecutor: every statement leaves what it enters.
pub mod Steps
use yosys_slang.Base.{
  elim_true, elim_false, ℕ, zero, suc, ◌≡◌, refl, ap, subst, ◌∙◌, Bool, ◌||◌, not, Option, none,
  some, List, [], ◌∷◌, ◌==◌, length, log_assert, ◌>>=◌, >>=-some, some_inj, Bool-cases,
  Option-cases, inl, inr, arith, if_true, if_false,
}
use mathlib.Core.List.{reverse}
use yosys_slang.Rtlil.{SigBit, SigSpec, s0, s1, state, is_fully_const, is_fully_def}
use yosys_slang.Variables.{Symbol, Variable, of_variable, bitwidth}
use yosys_slang.Builder.Gates.{Cells, reduce_bool, logic_or}
use yosys_slang.State.{evaluate}
use yosys_slang.Procedural.{loop, loop_body, function_body, current_subroutine, get_disable_flag}
use yosys_slang.Procedural.Values.{substitute_rvalue}
use yosys_slang.Procedural.Unrolling.{enter_unrolling}
use yosys_slang.Statements.Context.{
  Context, Diag, generic_timing_unsyn, SwitchHelper, new_switch, branch, finish, descend,
}
use yosys_slang.Statements.Guards.{as_bool, assign, with_escape, tick, leave_unrolling}
use yosys_slang.Statements.Foreach.{Index, first_indices, next_indices}
use yosys_slang.Statements.Syntax.{
  Expr, CaseCondition, LoopDim, Stmt, Stmts, MaybeStmt, Items, expression_statement, block,
  statement_list, conditional, case_statement, while_loop, for_loop, foreach_loop, variable_decl,
  return_statement, timed, break_statement, continue_statement, empty, wait_statement,
  unsupported_statement, no_stmt, add_stmt, absent, present, no_item, add_item,
}
use yosys_slang.Statements.Executor.{
  Language, logic_not, report, eval_all, eval_compare, timed_context, two_branches, eval_compares,
  is_inside, matches_z, while_rounds, unless_broken, for_rounds, set_iterator, set_iterators,
  const_32, foreach_rounds, init_nonstatic_variable, handle_return, case_switch, list_step,
  in_count, next_round, initial_of, return_value, disable_value, in_loop, execute, execute_list,
  execute_else, branch_else, execute_items,
}
use yosys_slang.Statements.Kept.{
  by_signal-Keeps, some-Keeps, bind_Keeps, IsKept, Keeps, IsKept-refl, IsKept-trans,
  with_scope-Keeps, assign-Keeps, escape-Keeps, with_escape-Keeps, in_switch-Keeps, branch-Keeps,
  finish-Keeps, tick-Keeps, descend-Keeps, enter_unrolling_lem, leave_unrolling_lem,
}
use yosys_slang.Statements.Discipline.Steps.{
  report-Keeps, timed_context-IsKept, eval_all-Keeps, round_Keeps, while_rounds-Keeps,
  unless_broken-Keeps, for_rounds-Keeps, set_iterator-Keeps, set_iterators-Keeps, next_round-Keeps,
  foreach_rounds-Keeps, initial_of-IsKept, return_value-Keeps, init_nonstatic_variable-Keeps,
  handle_return-Keeps, in_count-Keeps, list_step-Keeps, in_loop-Keeps, eval_compare-IsKept,
  eval_compares-IsKept, two_branches-Keeps,
}

module _ (lang : Language) (is_inferred_memory : Symbol → Bool) (cells : Cells)
    (wire : Symbol → ℕ → SigBit) (rank : Symbol → ℕ)
    (eval_keeps : (e : Expr) (c d : Context) (v : SigSpec)
      → lang.eval e c ≡ some (v, d)
      → IsKept c d)
    (inside_keeps : (v : SigSpec) (e : Expr) (c d : Context) (b : SigBit)
      → lang.inside_comparison v e c ≡ some (b, d)
      → IsKept c d) where
  mutual
    unfolding execute

    execute-Keeps : (s : Stmt) → Keeps (execute lang is_inferred_memory cells wire rank s)
    execute-Keeps (expression_statement x) c d e =
        let ((v, y), p, q) = >>=-some (lang.eval x c) _ d e in
        subst (IsKept c) (some_inj y d q) (eval_keeps x c y v p)
    execute-Keeps (block scope body) c d e =
        with_scope-Keeps scope (execute lang is_inferred_memory cells wire rank body)
          (execute-Keeps body) c d e
    execute-Keeps (statement_list l) c d e = execute_list-Keeps l c d e
    execute-Keeps (conditional condition a b) c d e =
        let ((v, x), p, q) = >>=-some (lang.eval condition c) _ d e in
        IsKept-trans c x d (eval_keeps condition c x v p)
          (elim (Bool-cases (is_fully_def (reduce_bool cells v))) [
            | inl i ↦ elim (Bool-cases (as_bool (reduce_bool cells v))) [
              | inl j ↦ execute-Keeps a x d (elim_true _ _ _ _ j (elim_true _ _ _ _ i q))
              | inr j ↦ execute_else-Keeps b x d (elim_false _ _ _ _ j (elim_true _ _ _ _ i q))
            ]
            | inr i ↦
                two_branches-Keeps lang is_inferred_memory cells wire rank eval_keeps inside_keeps
                  (lang.number (conditional condition a b)) (reduce_bool cells v) (lang.number a)
                  (execute lang is_inferred_memory cells wire rank a) (execute-Keeps a)
                  (branch_else lang is_inferred_memory cells wire rank b) (branch_else-IsKept b) x d
                  (elim_false _ _ _ _ i q)
          ])
    execute-Keeps (case_statement k check subject items otherwise) c d e =
        let ((dispatch, x), p, q) = >>=-some (lang.eval subject c) _ d e in
        let h0 =
          case_switch lang is_inferred_memory cells wire rank k check dispatch
            (lang.number (case_statement k check subject items otherwise)) x in
        let ((h, y), p', q') =
          >>=-some
            (execute_items lang is_inferred_memory cells wire rank k subject dispatch items (h0, x))
            _ d q in
        let ((h', z), p2, q2) =
          >>=-some (branch_else lang is_inferred_memory cells wire rank otherwise (h, y)) _ d q' in
        let (w, p3, q3) = >>=-some (finish wire rank h' z) _ d q2 in
        subst (IsKept c) (some_inj (descend w) d q3) (
          IsKept-trans c x _ (eval_keeps subject c x dispatch p) (
            IsKept-trans x y _ (execute_items-IsKept k subject dispatch items h0 h x y p') (
              IsKept-trans y z _ (branch_else-IsKept otherwise h h' y z p2) (
                IsKept-trans z w _ (finish-Keeps is_inferred_memory cells wire rank h' z w p3)
                  (descend-Keeps w)))))
    execute-Keeps (while_loop condition body) c d e =
        in_loop-Keeps lang is_inferred_memory cells wire rank eval_keeps inside_keeps
          (λ fuel flag.
            while_rounds lang is_inferred_memory cells wire rank fuel
              (lang.number (while_loop condition body)) (lang.number body) condition flag
              (execute lang is_inferred_memory cells wire rank body))
          (λ n v.
            while_rounds-Keeps lang is_inferred_memory cells wire rank eval_keeps inside_keeps n
              (lang.number (while_loop condition body)) (lang.number body) condition v
              (execute lang is_inferred_memory cells wire rank body) (execute-Keeps body))
          c d e
    execute-Keeps (for_loop initializers none steps body) c d e =
        let (x, p, q) =
          >>=-some (eval_all lang is_inferred_memory cells wire rank initializers c) _ d e in
        subst (IsKept c) (some_inj _ d q) (
          IsKept-trans c x _
            (eval_all-Keeps lang is_inferred_memory cells wire rank eval_keeps inside_keeps
              initializers c x p)
            (report-Keeps lang is_inferred_memory cells wire rank eval_keeps inside_keeps _ x))
    execute-Keeps (for_loop initializers (some stop) steps body) c d e =
        bind_Keeps (eval_all lang is_inferred_memory cells wire rank initializers) _
          (eval_all-Keeps lang is_inferred_memory cells wire rank eval_keeps inside_keeps
            initializers)
          (in_loop-Keeps lang is_inferred_memory cells wire rank eval_keeps inside_keeps
            (λ fuel flag.
              for_rounds lang is_inferred_memory cells wire rank fuel
                (lang.number (for_loop initializers (some stop) steps body)) (lang.number body) stop
                steps flag (execute lang is_inferred_memory cells wire rank body))
            (λ n v.
              for_rounds-Keeps lang is_inferred_memory cells wire rank eval_keeps inside_keeps n
                (lang.number (for_loop initializers (some stop) steps body)) (lang.number body) stop
                steps v (execute lang is_inferred_memory cells wire rank body)
                (execute-Keeps body)))
          c d e
    execute-Keeps (foreach_loop dims body) c d e =
        bind_Keeps (set_iterators lang is_inferred_memory cells wire rank dims (first_indices dims))
          _
          (set_iterators-Keeps lang is_inferred_memory cells wire rank eval_keeps inside_keeps dims
            (first_indices dims))
          (in_loop-Keeps lang is_inferred_memory cells wire rank eval_keeps inside_keeps
            (λ fuel flag.
              foreach_rounds lang is_inferred_memory cells wire rank fuel
                (lang.number (foreach_loop dims body)) (lang.number body) (reverse dims)
                (first_indices (reverse dims)) flag
                (execute lang is_inferred_memory cells wire rank body))
            (λ n v.
              foreach_rounds-Keeps lang is_inferred_memory cells wire rank eval_keeps inside_keeps n
                (lang.number (foreach_loop dims body)) (lang.number body) (reverse dims)
                (first_indices (reverse dims)) v
                (execute lang is_inferred_memory cells wire rank body) (execute-Keeps body)))
          c d e
    execute-Keeps (variable_decl symbol) c d e =
        elim (Bool-cases (lang.is_static_lifetime symbol)) [
          | inl i ↦ some-Keeps c d (elim_true _ _ _ _ i e)
          | inr i ↦
              init_nonstatic_variable-Keeps lang is_inferred_memory cells wire rank eval_keeps
                inside_keeps symbol c d (elim_false _ _ _ _ i e)
        ]
    execute-Keeps (return_statement value) c d e =
        handle_return-Keeps lang is_inferred_memory cells wire rank eval_keeps inside_keeps value c
          d e
    execute-Keeps (timed body) c d e =
        let x =
          timed_context lang is_inferred_memory cells wire rank (lang.number (timed body)) c in
        IsKept-trans c x d
          (timed_context-IsKept lang is_inferred_memory cells wire rank eval_keeps inside_keeps
            (lang.number (timed body)) c)
          (execute-Keeps body x d e)
    execute-Keeps break_statement c d e = escape-Keeps is_inferred_memory cells wire loop c d e
    execute-Keeps continue_statement c d e =
        escape-Keeps is_inferred_memory cells wire loop_body c d e
    execute-Keeps empty c d e = some-Keeps c d e
    execute-Keeps wait_statement c d e =
        subst (IsKept c) (some_inj _ d e)
          (report-Keeps lang is_inferred_memory cells wire rank eval_keeps inside_keeps _ c)
    execute-Keeps unsupported_statement c d e =
        subst (IsKept c) (some_inj _ d e)
          (report-Keeps lang is_inferred_memory cells wire rank eval_keeps inside_keeps _ c)

    execute_list-Keeps :
        (l : Stmts) → Keeps (execute_list lang is_inferred_memory cells wire rank l)
    execute_list-Keeps no_stmt c d e = some-Keeps c d e
    execute_list-Keeps (add_stmt s l) c d e =
        list_step-Keeps lang is_inferred_memory cells wire rank eval_keeps inside_keeps
          (lang.number s) _
          (bind_Keeps (execute lang is_inferred_memory cells wire rank s)
            (execute_list lang is_inferred_memory cells wire rank l) (execute-Keeps s)
            (execute_list-Keeps l))
          c d e

    execute_else-Keeps :
        (s : MaybeStmt) → Keeps (execute_else lang is_inferred_memory cells wire rank s)
    execute_else-Keeps absent c d e = some-Keeps c d e
    execute_else-Keeps (present s) c d e = execute-Keeps s c d e

    branch_else-IsKept :
        (s : MaybeStmt) (h h' : SwitchHelper) (c d : Context)
        → branch_else lang is_inferred_memory cells wire rank s (h, c) ≡ some (h', d)
        → IsKept c d
    branch_else-IsKept absent h h' c d e =
        subst (IsKept c) (ap (λ x. x.1) (some_inj (h, c) (h', d) e)) (IsKept-refl c)
    branch_else-IsKept (present s) h h' c d e =
        branch-Keeps is_inferred_memory cells wire rank [] (some (lang.number s))
          (execute lang is_inferred_memory cells wire rank s) (execute-Keeps s) h h' c d e

    execute_items-IsKept :
        (k : CaseCondition) (subject : Expr) (dispatch : SigSpec) (l : Items) (h h' : SwitchHelper)
        (c d : Context)
        → execute_items lang is_inferred_memory cells wire rank k subject dispatch l (h, c)
          ≡ some (h', d)
        → IsKept c d
    execute_items-IsKept k subject dispatch no_item h h' c d e =
        subst (IsKept c) (ap (λ x. x.1) (some_inj (h, c) (h', d) e)) (IsKept-refl c)
    execute_items-IsKept k subject dispatch (add_item exprs s l) h h' c d e =
        let ((compares, x), p, q) =
          >>=-some
            (eval_compares lang is_inferred_memory cells wire rank k subject dispatch exprs c) _
            (h', d) e in
        let (_, _, q') = >>=-some (log_assert (not (length compares == 0))) _ (h', d) q in
        let ((h1, y), p1, q1) =
          >>=-some
            (branch rank compares (some (lang.number s))
              (execute lang is_inferred_memory cells wire rank s) (h, x))
            _ (h', d) q' in
        IsKept-trans c x d
          (eval_compares-IsKept lang is_inferred_memory cells wire rank eval_keeps inside_keeps k
            subject dispatch exprs c x compares p)
          (IsKept-trans x y d
            (branch-Keeps is_inferred_memory cells wire rank compares (some (lang.number s))
              (execute lang is_inferred_memory cells wire rank s) (execute-Keeps s) h h1 x y p1)
            (execute_items-IsKept k subject dispatch l h1 h' y d q1))

  -- A statement that is executed without a failed assertion leaves the escape constructs, the scopes and the
  -- loops under unrolling as it found them, keeps the limit, and, inside a loop, takes no round back from
  -- the count. The evaluation of expressions and of `inside` is taken to do so.
  pub execute-IsKept :
      (s : Stmt) (c d : Context)
      → execute lang is_inferred_memory cells wire rank s c ≡ some d
      → IsKept c d
  execute-IsKept s c d e = execute-Keeps s c d e
