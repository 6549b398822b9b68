-- ===== src/Statements/Initial.antt =====
-- src/statements.h, StatementExecutor: while loops in initial processes.
use yosys_slang.Base.{
  ℕ, suc, ◌≡◌, refl, sym, ap, subst, ◌∙◌, Bool, true, Option, none, some, >>=-some, some_inj,
  Option-cases, inl, inr,
}
use yosys_slang.Rtlil.{SigBit, SigSpec}
use yosys_slang.Variables.{Symbol, escape_flag, of_variable, unpack, expand, is_dummy}
use yosys_slang.Builder.Gates.{Cells}
use yosys_slang.State.{VariableState, lookup, evaluate, evaluate_bit, evaluate_list, wire_of}
use yosys_slang.Procedural.{loop, register_escape}
use yosys_slang.Procedural.Unrolling.{enter_unrolling}
use yosys_slang.Statements.Context.{Context}
use yosys_slang.Statements.Guards.{on_process, with_escape}
use yosys_slang.Statements.Kept.{register_escape_lem}
use yosys_slang.Statements.Syntax.{Expr, Stmt, while_loop}
use yosys_slang.Statements.Executor.{Language, while_rounds, in_count, in_loop, execute}

-- A flag without a value cannot be evaluated.
evaluate_flag :
    (wire : Symbol → ℕ → SigBit) (s : VariableState) (i : ℕ)
    → lookup (record { variable = escape_flag i; offset = 0 }) s.visible_assignments ≡ none
    → evaluate wire s (of_variable (escape_flag i) 1) ≡ none
unfolding evaluate evaluate_list evaluate_bit of_variable unpack expand is_dummy wire_of
evaluate_flag wire s i h = rw h refl

not_some : {A : Type 0} (o : Option A) (a : A) → o ≡ none → o ≡ some a → ⊥
not_some o a h k = cc

no_round :
    (lang : Language) (is_inferred_memory : Symbol → Bool) (cells : Cells)
    (wire : Symbol → ℕ → SigBit) (rank : Symbol → ℕ) (condition : Expr)
    → ((x y : Context) (v : SigSpec)
        → lang.eval condition x ≡ some (v, y)
        → y.process.vstate ≡ x.process.vstate)
    → (fuel statement body i : ℕ) (f : Context → Option Context) (c d : Context)
    → lookup (record { variable = escape_flag i; offset = 0 }) c.process.vstate.visible_assignments
      ≡ none
    → while_rounds lang is_inferred_memory cells wire rank
        (suc fuel)
        statement
        body
        condition
        (escape_flag i)
        f
        c
      ≡ some d
    → ⊥
unfolding while_rounds
no_round lang is_inferred_memory cells wire rank condition ev fuel statement body i f c d h e =
    let ((v, y), p, q) = >>=-some (lang.eval condition c) _ d e in
    let (b, r, _) =
      >>=-some (evaluate wire y.process.vstate (of_variable (escape_flag i) 1)) _ d q in
    not_some _ b
      (evaluate_flag wire y.process.vstate i (
        subst
          (λ (t : VariableState).
            lookup (record { variable = escape_flag i; offset = 0 }) t.visible_assignments ≡ none)
          (sym (ev c y v p)) h))
      r

-- A while loop in an initial process fails an assertion before its first round, whatever its condition and
-- its body are: the flag that the loop is left by is evaluated among the values of the other processes,
-- where an initial process enters nothing. The condition's evaluation is taken to leave those values, and
-- the flag that is next in turn to have none.
pub while_initial :
    (lang : Language) (is_inferred_memory : Symbol → Bool) (cells : Cells)
    (wire : Symbol → ℕ → SigBit) (rank : Symbol → ℕ) (condition : Expr) (body : Stmt) (c : Context)
    → c.process.initial ≡ true
    → lookup
        (record { variable = escape_flag c.process.flag_counter; offset = 0 })
        c.process.vstate.visible_assignments
      ≡ none
    → ((x y : Context) (v : SigSpec)
        → lang.eval condition x ≡ some (v, y)
        → y.process.vstate ≡ x.process.vstate)
    → execute lang is_inferred_memory cells wire rank (while_loop condition body) c ≡ none
unfolding execute in_loop with_escape on_process in_count while_rounds
while_initial lang is_inferred_memory cells wire rank condition body c i h ev =
    elim (Option-cases
      (execute lang is_inferred_memory cells wire rank (while_loop condition body) c)) [
        | inl e ↦ e
        | inr (d, e) ↦
            let flag = escape_flag c.process.flag_counter in
            let (x, p, _) =
              >>=-some
                (with_escape is_inferred_memory cells wire loop none
                  (in_count lang is_inferred_memory cells wire rank (λ fuel v.
                    while_rounds lang is_inferred_memory cells wire rank fuel
                      (lang.number (while_loop condition body)) (lang.number body) condition v
                      (execute lang is_inferred_memory cells wire rank body)))
                  c)
                _ d e in
            let (y, q, r) =
              >>=-some (on_process (register_escape is_inferred_memory cells wire loop none) c) _ x
                p in
            let (z, a, b) =
              >>=-some (register_escape is_inferred_memory cells wire loop none c.process) _ y q in
            let yz = some_inj _ y b in
            let (_, _, vz) =
              register_escape_lem is_inferred_memory cells wire loop none c.process z a in
            let (w, g, _) =
              >>=-some
                (in_count lang is_inferred_memory cells wire rank
                  (λ fuel v.
                    while_rounds lang is_inferred_memory cells wire rank fuel
                      (lang.number (while_loop condition body)) (lang.number body) condition v
                      (execute lang is_inferred_memory cells wire rank body))
                  flag y)
                _ x r in
            let (u, k, _) =
              >>=-some
                (while_rounds lang is_inferred_memory cells wire rank (suc (suc y.unroll.limit))
                  (lang.number (while_loop condition body)) (lang.number body) condition flag
                  (execute lang is_inferred_memory cells wire rank body)
                  (record y { unroll = enter_unrolling y.unroll }))
                _ w g in
            let s : c.process.vstate ≡ y.process.vstate =
              sym (vz i) ∙ ap (λ (t : Context). t.process.vstate) yz in
            absurd (
              no_round lang is_inferred_memory cells wire rank condition ev (suc y.unroll.limit)
                (lang.number (while_loop condition body)) (lang.number body) c.process.flag_counter
                (execute lang is_inferred_memory cells wire rank body)
                (record y { unroll = enter_unrolling y.unroll }) u
                (subst
                  (λ (t : VariableState).
                    lookup (record { variable = escape_flag c.process.flag_counter; offset = 0 })
                      t.visible_assignments
                    ≡ none)
                  s h)
                k)
      ]
