-- ===== src/Statements/Discipline/Steps.antt =====
-- src/statements.h, StatementExecutor: the parts of the handlers leave what they enter, if their bodies do.
use yosys_slang.Base.{
  elim_true, elim_false, ℕ, zero, suc, ◌≡◌, refl, ap, subst, ◌∙◌, Bool, ◌||◌, not, Option, none,
  some, List, [], ◌∷◌, ◌==◌, length, log_assert, ◌>>=◌, >>=-some, some_inj, Bool-cases,
  Option-cases, inl, inr, arith, if_true, if_false,
}
use yosys_slang.Rtlil.{SigBit, SigSpec, s0, s1, state, is_fully_const}
use yosys_slang.Variables.{Symbol, Variable, of_variable, bitwidth}
use yosys_slang.Builder.Gates.{Cells, reduce_bool, logic_or}
use yosys_slang.State.{evaluate}
use yosys_slang.Procedural.{loop, loop_body, function_body, current_subroutine, get_disable_flag}
use yosys_slang.Procedural.Values.{substitute_rvalue}
use yosys_slang.Procedural.Unrolling.{enter_unrolling}
use yosys_slang.Statements.Context.{
  Context, Diag, generic_timing_unsyn, SwitchHelper, new_switch, branch, finish, descend,
}
use yosys_slang.Statements.Guards.{assign, with_escape, tick, leave_unrolling}
use yosys_slang.Statements.Foreach.{Index, next_indices}
use yosys_slang.Statements.Syntax.{Expr, CaseCondition, LoopDim}
use yosys_slang.Statements.Executor.{
  Language, logic_not, report, eval_all, eval_compare, timed_context, two_branches, eval_compares,
  is_inside, matches_z, while_rounds, unless_broken, for_rounds, set_iterator, set_iterators,
  const_32, foreach_rounds, init_nonstatic_variable, handle_return, list_step, in_count, next_round,
  initial_of, return_value, disable_value, in_loop,
}
use yosys_slang.Statements.Kept.{
  by_signal-Keeps, some-Keeps, bind_Keeps, IsKept, Keeps, IsKept-refl, IsKept-trans, assign-Keeps,
  escape-Keeps, with_escape-Keeps, in_switch-Keeps, branch-Keeps, finish-Keeps, tick-Keeps,
  descend-Keeps, enter_unrolling_lem, leave_unrolling_lem,
}

module _ (lang : Language) (is_inferred_memory : Symbol → Bool) (cells : Cells)
    (wire : Symbol → ℕ → SigBit) (rank : Symbol → ℕ)
    (eval_keeps : (e : Expr) (c d : Context) (v : SigSpec)
      → lang.eval e c ≡ some (v, d)
      → IsKept c d)
    (inside_keeps : (v : SigSpec) (e : Expr) (c d : Context) (b : SigBit)
      → lang.inside_comparison v e c ≡ some (b, d)
      → IsKept c d) where
  pub report-Keeps :
      (x : Diag) (c : Context) → IsKept c (report lang is_inferred_memory cells wire rank x c)
  unfolding report
  report-Keeps x c = record {
    escapes = refl;
    same_scopes = refl;
    unrolling = refl;
    limit = refl;
    counted = λ _. omega arith;
  }

  pub timed_context-IsKept :
      (n : ℕ) (c : Context) → IsKept c (timed_context lang is_inferred_memory cells wire rank n c)
  unfolding timed_context
  timed_context-IsKept n c = elim (Bool-cases lang.ignore_timing) [
    | inl i ↦ subst (IsKept c) (ground (arith, i)) (IsKept-refl c)
    | inr i ↦ subst (IsKept c) (ground (arith, i)) (report-Keeps (generic_timing_unsyn n) c)
  ]

  pub eval_all-Keeps : (l : List Expr) → Keeps (eval_all lang is_inferred_memory cells wire rank l)
  unfolding eval_all
  eval_all-Keeps [] c d e = subst (IsKept c) (some_inj c d e) (IsKept-refl c)
  eval_all-Keeps (x ∷ l) c d e =
      let ((v, y), p, q) = >>=-some (lang.eval x c) _ d e in
      IsKept-trans c y d (eval_keeps x c y v p) (eval_all-Keeps l y d q)

  pub round_Keeps :
      (statement : ℕ) (f g : Context → Option Context)
      → Keeps f
      → Keeps g
      → Keeps (λ c.
        with_escape is_inferred_memory cells wire loop_body none (λ _. f) c >>= tick statement g)
  round_Keeps statement f g h k =
      bind_Keeps (with_escape is_inferred_memory cells wire loop_body none (λ _. f))
        (tick statement g)
        (with_escape-Keeps is_inferred_memory cells wire loop_body none (λ _. f) (λ _. h))
        (tick-Keeps statement g k)

  pub while_rounds-Keeps :
      (fuel statement body : ℕ) (cond : Expr) (flag : Variable) (f : Context → Option Context)
      → Keeps f
      → Keeps (while_rounds lang is_inferred_memory cells wire rank fuel statement body cond flag f)
  unfolding while_rounds
  while_rounds-Keeps zero statement body cond flag f k c d e = cc
  while_rounds-Keeps (suc fuel) statement body cond flag f k c d e =
      let ((cv, x), p, q) = >>=-some (lang.eval cond c) _ d e in
      let (break_rv, _, r) = >>=-some (evaluate wire x.process.vstate (of_variable flag 1)) _ d q in
      let round =
        round_Keeps statement f
          (while_rounds lang is_inferred_memory cells wire rank fuel statement body cond flag f) k
          (while_rounds-Keeps fuel statement body cond flag f k) in
      IsKept-trans c x d (eval_keeps cond c x cv p) (
        by_signal-Keeps
          (logic_or cells (logic_not lang is_inferred_memory cells wire rank (reduce_bool cells cv))
            break_rv)
          _ some _
          (in_switch-Keeps is_inferred_memory cells wire rank
            (logic_or cells
              (logic_not lang is_inferred_memory cells wire rank (reduce_bool cells cv)) break_rv)
            s0 statement body _
            (bind_Keeps (assign is_inferred_memory cells wire (of_variable flag 1) (state s0 ∷ []))
              _ (assign-Keeps is_inferred_memory cells wire (of_variable flag 1) (state s0 ∷ []))
              round))
          some-Keeps round x d r)

  pub unless_broken-Keeps :
      (statement body : ℕ) (flag : Variable) (f : Context → Option Context)
      → Keeps f
      → Keeps (unless_broken lang is_inferred_memory cells wire rank statement body flag f)
  unfolding unless_broken
  unless_broken-Keeps statement body flag f k c d e =
      let (break_rv, _, r) =
        >>=-some (substitute_rvalue wire (of_variable flag 1) c.process) _ d e in
      by_signal-Keeps break_rv _ some f
        (in_switch-Keeps is_inferred_memory cells wire rank break_rv s0 statement body f k)
        some-Keeps k c d r

  pub for_rounds-Keeps :
      (fuel statement body : ℕ) (stop : Expr) (steps : List Expr) (flag : Variable)
      (f : Context → Option Context)
      → Keeps f
      → Keeps
          (for_rounds lang is_inferred_memory cells wire rank fuel statement body stop steps flag f)
  unfolding for_rounds
  for_rounds-Keeps zero statement body stop steps flag f k c d e = cc
  for_rounds-Keeps (suc fuel) statement body stop steps flag f k c d e =
      let ((cv, x), p, q) = >>=-some (lang.eval stop c) _ d e in
      let again =
        tick-Keeps statement
          (for_rounds lang is_inferred_memory cells wire rank fuel statement body stop steps flag f)
          (for_rounds-Keeps fuel statement body stop steps flag f k) in
      let rest = unless_broken-Keeps statement body flag _ (
        bind_Keeps (eval_all lang is_inferred_memory cells wire rank steps) _ (eval_all-Keeps steps)
          again) in
      let round =
        bind_Keeps (with_escape is_inferred_memory cells wire loop_body none (λ _. f)) _
          (with_escape-Keeps is_inferred_memory cells wire loop_body none (λ _. f) (λ _. k)) rest in
      IsKept-trans c x d (eval_keeps stop c x cv p) (
        by_signal-Keeps (reduce_bool cells cv) _ _ some
          (in_switch-Keeps is_inferred_memory cells wire rank (reduce_bool cells cv) s1 statement
            body _ round)
          round some-Keeps x d q)

  pub set_iterator-Keeps :
      (v : Option Symbol) (i : Option Index)
      → Keeps (set_iterator lang is_inferred_memory cells wire rank v i)
  unfolding set_iterator
  set_iterator-Keeps (some v) (some i) c d e =
      assign-Keeps is_inferred_memory cells wire (lang.variable v c) (const_32 i.value) c d e
  set_iterator-Keeps (some v) none c d e = some-Keeps c d e
  set_iterator-Keeps none i c d e = some-Keeps c d e

  pub set_iterators-Keeps :
      (dims : List LoopDim) (l : List (Option Index))
      → Keeps (set_iterators lang is_inferred_memory cells wire rank dims l)
  unfolding set_iterators
  set_iterators-Keeps [] l c d e = some-Keeps c d e
  set_iterators-Keeps (x ∷ dims) [] c d e = some-Keeps c d e
  set_iterators-Keeps (x ∷ dims) (i ∷ l) c d e =
      bind_Keeps (set_iterator lang is_inferred_memory cells wire rank x.loop_var i) _
        (set_iterator-Keeps x.loop_var i) (set_iterators-Keeps dims l) c d e

  pub next_round-Keeps :
      (next : Option (List (Option Index))) (statement : ℕ) (dims : List LoopDim)
      (indices : List (Option Index)) (f : List (Option Index) → Context → Option Context)
      → ((r : List (Option Index)) → Keeps (f r))
      → Keeps (next_round lang is_inferred_memory cells wire rank next statement dims indices f)
  unfolding next_round
  next_round-Keeps none statement dims indices f k c d e = set_iterators-Keeps dims indices c d e
  next_round-Keeps (some r) statement dims indices f k c d e =
      bind_Keeps (set_iterators lang is_inferred_memory cells wire rank dims r)
        (tick statement (f r)) (set_iterators-Keeps dims r) (tick-Keeps statement (f r) (k r)) c d e

  pub foreach_rounds-Keeps :
      (fuel statement body : ℕ) (dims : List LoopDim) (indices : List (Option Index))
      (flag : Variable) (f : Context → Option Context)
      → Keeps f
      → Keeps (
          foreach_rounds lang is_inferred_memory cells wire rank fuel statement body dims indices
            flag f)
  unfolding foreach_rounds
  foreach_rounds-Keeps zero statement body dims indices flag f k c d e = cc
  foreach_rounds-Keeps (suc fuel) statement body dims indices flag f k c d e =
      bind_Keeps (with_escape is_inferred_memory cells wire loop_body none (λ _. f)) _
        (with_escape-Keeps is_inferred_memory cells wire loop_body none (λ _. f) (λ _. k))
        (unless_broken-Keeps statement body flag _ (
          next_round-Keeps (next_indices indices) statement dims indices
            (λ r.
              foreach_rounds lang is_inferred_memory cells wire rank fuel statement body dims r flag
                f)
            (λ r. foreach_rounds-Keeps fuel statement body dims r flag f k)))
        c d e

  pub initial_of-IsKept :
      (x : Option Expr) (symbol : Symbol) (c d : Context) (v : SigSpec)
      → initial_of lang is_inferred_memory cells wire rank x symbol c ≡ some (v, d)
      → IsKept c d
  unfolding initial_of
  initial_of-IsKept (some x) symbol c d v e = eval_keeps x c d v e
  initial_of-IsKept none symbol c d v e = elim (Option-cases (lang.default_value symbol)) [
    | inl n ↦ subst (IsKept c) (ground (arith, e)) (IsKept-refl c)
    | inr (w, n) ↦ subst (IsKept c) (ground (arith, e)) (IsKept-refl c)
  ]

  pub return_value-Keeps :
      (subroutine : ℕ) (value : Option Expr)
      → Keeps (return_value lang is_inferred_memory cells wire rank subroutine value)
  unfolding return_value
  return_value-Keeps subroutine none c d e = some-Keeps c d e
  return_value-Keeps subroutine (some x) c d e =
      let (_, _, e') = >>=-some (log_assert (lang.is_function subroutine)) _ d e in
      let (symbol, _, q) = >>=-some (lang.return_variable subroutine) _ d e' in
      let ((v, y), p, r) = >>=-some (lang.eval x c) _ d q in
      IsKept-trans c y d (eval_keeps x c y v p)
        (assign-Keeps is_inferred_memory cells wire (lang.variable symbol c) v y d r)

  pub init_nonstatic_variable-Keeps :
      (symbol : Symbol)
      → Keeps (init_nonstatic_variable lang is_inferred_memory cells wire rank symbol)
  unfolding init_nonstatic_variable
  init_nonstatic_variable-Keeps symbol c d e =
      elim (Bool-cases (bitwidth (lang.variable symbol c) == 0)) [
        | inl z ↦ some-Keeps c d (elim_true _ _ _ _ z e)
        | inr z ↦
            let ((v, x), p, q) =
              >>=-some
                (initial_of lang is_inferred_memory cells wire rank (lang.initializer symbol) symbol
                  c)
                _ d (elim_false _ _ _ _ z e) in
            IsKept-trans c x d (initial_of-IsKept (lang.initializer symbol) symbol c x v p)
              (assign-Keeps is_inferred_memory cells wire (lang.variable symbol c) v x d q)
      ]

  pub handle_return-Keeps :
      (value : Option Expr) → Keeps (handle_return lang is_inferred_memory cells wire rank value)
  unfolding handle_return
  handle_return-Keeps value c d e =
      let (frame, _, q) = >>=-some (current_subroutine c.process.escape_stack) _ d e in
      let (subroutine, _, r) = >>=-some frame _ d q in
      let (x, p, s) =
        >>=-some (return_value lang is_inferred_memory cells wire rank subroutine value c) _ d r in
      IsKept-trans c x d (return_value-Keeps subroutine value c x p)
        (escape-Keeps is_inferred_memory cells wire function_body x d s)

  -- Inside the count of unrolled loops.
  pub in_count-Keeps :
      (rounds : ℕ → Variable → Context → Option Context)
      → ((n : ℕ) (v : Variable) → Keeps (rounds n v))
      → (v : Variable) → Keeps (in_count lang is_inferred_memory cells wire rank rounds v)
  unfolding in_count
  in_count-Keeps rounds k v c d e =
      let x = record c { unroll = enter_unrolling c.unroll } in
      let (y, p, q) = >>=-some (rounds (suc (suc c.unroll.limit)) v x) leave_unrolling d e in
      let h = k (suc (suc c.unroll.limit)) v x y p in
      let (a, b, m) = enter_unrolling_lem c.unroll in
      let (n, z, w) = leave_unrolling_lem y d q in
      subst (IsKept c) w (record {
        escapes = h.escapes;
        same_scopes = h.same_scopes;
        unrolling = omega (arith, a, z, h.unrolling);
        limit = h.limit ∙ b;
        counted = λ o. omega (arith, m o, h.counted (omega (arith, a)));
      })

  pub list_step-Keeps :
      (statement : ℕ) (f : Context → Option Context)
      → Keeps f
      → Keeps (list_step lang is_inferred_memory cells wire rank statement f)
  unfolding list_step
  list_step-Keeps statement f k c d e =
      let flag = get_disable_flag c.process in
      let (rv, _, q) =
        >>=-some (disable_value lang is_inferred_memory cells wire rank flag c) _ d e in
      by_signal-Keeps rv _ some f
        (in_switch-Keeps is_inferred_memory cells wire rank rv s0 statement statement _ (
          bind_Keeps (assign is_inferred_memory cells wire (of_variable flag 1) (state s0 ∷ [])) f
            (assign-Keeps is_inferred_memory cells wire (of_variable flag 1) (state s0 ∷ [])) k))
        some-Keeps k c d q

  pub in_loop-Keeps :
      (rounds : ℕ → Variable → Context → Option Context)
      → ((n : ℕ) (v : Variable) → Keeps (rounds n v))
      → Keeps (in_loop lang is_inferred_memory cells wire rank rounds)
  unfolding in_loop
  in_loop-Keeps rounds k c d e =
      let (x, p, q) =
        >>=-some
          (with_escape is_inferred_memory cells wire loop none
            (in_count lang is_inferred_memory cells wire rank rounds) c)
          _ d e in
      subst (IsKept c) (some_inj (descend x) d q) (
        IsKept-trans c x (descend x)
          (with_escape-Keeps is_inferred_memory cells wire loop none
            (in_count lang is_inferred_memory cells wire rank rounds)
            (λ v. in_count-Keeps rounds k v) c x p)
          (descend-Keeps x))

  pub eval_compare-IsKept :
      (k : CaseCondition) (subject : Expr) (dispatch : SigSpec) (x : Expr) (c d : Context)
      (v : SigSpec)
      → eval_compare lang is_inferred_memory cells wire rank k subject dispatch x c ≡ some (v, d)
      → IsKept c d
  unfolding eval_compare
  eval_compare-IsKept k subject dispatch x c d v e = elim (Bool-cases (is_inside k)) [
    | inl i ↦
        let (_, _, q) =
          >>=-some (log_assert (lang.is_integral subject)) _ (v, d) (if_true _ _ _ _ i e) in
        let ((b, y), p, r) = >>=-some (lang.inside_comparison dispatch x c) _ (v, d) q in
        subst (IsKept c) (ap (λ x. x.1) (some_inj _ (v, d) r)) (inside_keeps dispatch x c y b p)
    | inr i ↦
        let ((u, y), p, q) = >>=-some (lang.eval x c) _ (v, d) (if_false _ _ _ _ i e) in
        let (_, _, r) = >>=-some (log_assert (length u == length dispatch)) _ (v, d) q in
        let (_, _, t) = >>=-some (log_assert (not (matches_z k) || is_fully_const u)) _ (v, d) r in
        subst (IsKept c) (ap (λ x. x.1) (some_inj _ (v, d) t)) (eval_keeps x c y u p)
  ]

  pub eval_compares-IsKept :
      (k : CaseCondition) (subject : Expr) (dispatch : SigSpec) (l : List Expr) (c d : Context)
      (r : List SigSpec)
      → eval_compares lang is_inferred_memory cells wire rank k subject dispatch l c ≡ some (r, d)
      → IsKept c d
  unfolding eval_compares
  eval_compares-IsKept k subject dispatch [] c d r e =
      subst (IsKept c) (ap (λ x. x.1) (some_inj ([], c) (r, d) e)) (IsKept-refl c)
  eval_compares-IsKept k subject dispatch (x ∷ l) c d r e =
      let ((v, y), p, q) =
        >>=-some (eval_compare lang is_inferred_memory cells wire rank k subject dispatch x c) _
          (r, d) e in
      let ((t, z), p', q') =
        >>=-some (eval_compares lang is_inferred_memory cells wire rank k subject dispatch l y) _
          (r, d) q in
      let w : z ≡ d = ap (λ x. x.1) (some_inj _ (r, d) q') in
      IsKept-trans c y d (eval_compare-IsKept k subject dispatch x c y v p)
        (subst (IsKept y) w (eval_compares-IsKept k subject dispatch l y z t p'))

  pub two_branches-Keeps :
      (n : ℕ) (cond : SigSpec) (body : ℕ) (f : Context → Option Context)
      → Keeps f
      → (otherwise : SwitchHelper × Context → Option (SwitchHelper × Context))
      → ((h h' : SwitchHelper) (c d : Context) → otherwise (h, c) ≡ some (h', d) → IsKept c d)
      → Keeps (two_branches lang is_inferred_memory cells wire rank n cond body f otherwise)
  unfolding two_branches
  two_branches-Keeps n cond body f k otherwise o x d e =
      let h0 = new_switch cond (some n) x in
      let ((h, y), p, q) =
        >>=-some (branch rank ((state s1 ∷ []) ∷ []) (some body) f (h0, x)) _ d e in
      let ((h', z), p2, q2) = >>=-some (otherwise (h, y)) _ d q in
      let (w, p3, q3) = >>=-some (finish wire rank h' z) _ d q2 in
      subst (IsKept x) (some_inj (descend w) d q3) (
        IsKept-trans x y _
          (branch-Keeps is_inferred_memory cells wire rank ((state s1 ∷ []) ∷ []) (some body) f k h0
            h x y p)
          (IsKept-trans y z _ (o h h' y z p2) (
            IsKept-trans z w _ (finish-Keeps is_inferred_memory cells wire rank h' z w p3)
              (descend-Keeps w))))
