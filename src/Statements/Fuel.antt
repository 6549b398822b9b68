-- ===== src/Statements/Fuel.antt =====
-- src/statements.h, StatementExecutor: the limit on unrolling bounds the rounds of every loop, so that the
-- model's fuel is enough.
use yosys_slang.Base.{
  ℕ, zero, suc, ◌+◌, ◌<◌, ◌≡◌, refl, sym, ap, subst, Bool, true, false, Option, none, some, List,
  [], ◌∷◌, ◌>>=◌, >>=-ext, arith,
}
use yosys_slang.Rtlil.{SigBit, SigSpec, State, s0, s1, state, is_fully_const}
use yosys_slang.Variables.{Symbol, Variable, of_variable}
use yosys_slang.Builder.Gates.{Cells, reduce_bool, logic_or}
use yosys_slang.State.{evaluate}
use yosys_slang.Procedural.{loop_body}
use yosys_slang.Procedural.Values.{substitute_rvalue}
use yosys_slang.Procedural.Unrolling.{UnrollLimit, unroll_tick}
use yosys_slang.Statements.Context.{Context, new_switch, enter_branch, exit_branch, finish}
use yosys_slang.Statements.Guards.{by_signal, as_bool, assign, with_escape, in_switch, tick}
use yosys_slang.Statements.Foreach.{Index, next_indices}
use yosys_slang.Statements.Syntax.{Expr, LoopDim}
use yosys_slang.Statements.Executor.{
  Language, logic_not, eval_all, while_rounds, unless_broken, for_rounds, set_iterators, next_round,
  foreach_rounds,
}
use yosys_slang.Statements.Kept.{
  IsKept, Keeps, with_escape-Keeps, assign-Keeps, enter_branch-Keeps, unroll_tick_lem,
}
use yosys_slang.Statements.Discipline.Steps.{eval_all-Keeps, set_iterators-Keeps}

-- Fuel for all rounds that the limit permits.
abbrev pub IsEnough : ℕ → Context → Type 0
IsEnough fuel c =
    (0 < fuel) × (0 < c.unroll.unrolling) × (c.unroll.limit < c.unroll.unroll_counter + fuel)

IsEnough-kept : (fuel : ℕ) (c d : Context) → IsKept c d → IsEnough fuel c → IsEnough fuel d
IsEnough-kept fuel c d k h =
    (h.0, omega (arith, k.unrolling, h.1), omega (arith, k.limit, k.counted h.1, h.2))

IsEnough-same : (fuel : ℕ) (c d : Context) → d.unroll ≡ c.unroll → IsEnough fuel c → IsEnough fuel d
IsEnough-same fuel c d e h =
    subst
      (λ (u : UnrollLimit). (0 < fuel) × (0 < u.unrolling) × (u.limit < u.unroll_counter + fuel))
      (sym e) h

elim_ext :
    (b : Bool) (x x' y y' : Option Context)
    → (b ≡ true → x ≡ x')
    → (b ≡ false → y ≡ y')
    → (elim b as (λ _. Option Context) [ true ↦ x | false ↦ y ])
      ≡ (elim b as (λ _. Option Context) [ true ↦ x' | false ↦ y' ])
elim_ext true x x' y y' h k = h refl
elim_ext false x x' y y' h k = k refl

by_signal_same :
    (signal : SigSpec) (f g h f' g' h' : Context → Option Context) (c : Context)
    → f c ≡ f' c
    → g c ≡ g' c
    → h c ≡ h' c
    → by_signal signal f g h c ≡ by_signal signal f' g' h' c
unfolding by_signal
by_signal_same signal f g h f' g' h' c p q r =
    elim_ext (is_fully_const signal) _ _ _ _
      (λ _. elim_ext (as_bool signal) _ _ _ _ (λ _. q) (λ _. r)) (λ _. p)

tick_same :
    (s : ℕ) (f g : Context → Option Context) (c : Context)
    → ((unroll_tick s c.unroll).0 ≡ true
        → f (record c { unroll = (unroll_tick s c.unroll).1 })
          ≡ g (record c { unroll = (unroll_tick s c.unroll).1 }))
    → tick s f c ≡ tick s g c
unfolding tick
tick_same s f g c h = elim_ext (unroll_tick s c.unroll).0 _ _ _ _ h (λ _. refl)

-- A round that the limit permits leaves one less.
tick-IsEnough :
    (fuel s : ℕ) (c : Context)
    → IsEnough (suc fuel) c
    → (unroll_tick s c.unroll).0 ≡ true
    → IsEnough fuel (record c { unroll = (unroll_tick s c.unroll).1 })
tick-IsEnough fuel s c h g =
    let (a, b, _, m) = unroll_tick_lem s c.unroll in
    let (p, q) = m g in (omega (arith, p, q, h.2), omega (arith, a, h.1), omega (arith, b, p, h.2))

module _ (lang : Language) (is_inferred_memory : Symbol → Bool) (cells : Cells)
    (wire : Symbol → ℕ → SigBit) (rank : Symbol → ℕ) where
  in_switch_same :
      (signal : SigSpec) (value : State) (statement body : ℕ) (f g : Context → Option Context)
      (c : Context)
      → ((x : Context) → x.unroll ≡ c.unroll → f x ≡ g x)
      → in_switch is_inferred_memory cells wire rank signal value statement body f c
        ≡ in_switch is_inferred_memory cells wire rank signal value statement body g c
  unfolding in_switch
  in_switch_same signal value statement body f g c h =
      >>=-ext
        (enter_branch ((state value ∷ []) ∷ []) (some body) (new_switch signal (some statement) c)
          c)
        _ _
        (λ x e.
          ap (λ o. o >>= λ e. exit_branch rank x.0 e >>= λ y. finish wire rank y.0 y.1)
            (h x.1
              (enter_branch-Keeps is_inferred_memory cells wire rank ((state value ∷ []) ∷ [])
                (some body) (new_switch signal (some statement) c) x.0 c x.1 e).1))

  module _
      (eval_keeps : (e : Expr) (c d : Context) (v : SigSpec)
        → lang.eval e c ≡ some (v, d)
        → IsKept c d)
      (inside_keeps : (v : SigSpec) (e : Expr) (c d : Context) (b : SigBit)
        → lang.inside_comparison v e c ≡ some (b, d)
        → IsKept c d) where
    -- Behind a body, a round that the limit permits has enough fuel again.
    after_tick :
        (m n statement : ℕ) (f g : Context → Option Context) (c : Context)
        → ((x : Context) → IsEnough m x → IsEnough n x → f x ≡ g x)
        → IsEnough (suc m) c
        → IsEnough (suc n) c
        → tick statement f c ≡ tick statement g c
    after_tick m n statement f g c h p q =
        tick_same statement f g c
          (λ t. h _ (tick-IsEnough m statement c p t) (tick-IsEnough n statement c q t))

    after_body :
        (m n : ℕ) (body f g : Context → Option Context) (c : Context)
        → Keeps body
        → ((x : Context) → IsEnough m x → IsEnough n x → f x ≡ g x)
        → IsEnough m c
        → IsEnough n c
        → (body c >>= f) ≡ (body c >>= g)
    after_body m n body f g c k h p q =
        >>=-ext (body c) f g
          (λ x e. h x (IsEnough-kept m c x (k c x e) p) (IsEnough-kept n c x (k c x e) q))

    in_body_Keeps :
        (f : Context → Option Context)
        → Keeps f
        → Keeps (with_escape is_inferred_memory cells wire loop_body none (λ _. f))
    in_body_Keeps f k =
        with_escape-Keeps is_inferred_memory cells wire loop_body none (λ _. f) (λ _. k)

    while_fuel :
        (m n statement body : ℕ) (cond : Expr) (flag : Variable) (f : Context → Option Context)
        (c : Context)
        → Keeps f
        → IsEnough m c
        → IsEnough n c
        → while_rounds lang is_inferred_memory cells wire rank m statement body cond flag f c
          ≡ while_rounds lang is_inferred_memory cells wire rank n statement body cond flag f c
    unfolding while_rounds
    while_fuel zero n statement body cond flag f c k p q = absurd (omega (arith, p.0))
    while_fuel (suc m) zero statement body cond flag f c k p q = absurd (omega (arith, q.0))
    while_fuel (suc m) (suc n) statement body cond flag f c k p q =
        let later : ℕ → Context → Option Context = λ l x.
          with_escape is_inferred_memory cells wire loop_body none (λ _. f) x
          >>= tick statement
              (while_rounds lang is_inferred_memory cells wire rank l statement body cond flag f) in
        let first : ℕ → Context → Option Context = λ l x.
          assign is_inferred_memory cells wire (of_variable flag 1) (state s0 ∷ []) x >>= later l in
        let round : (x : Context)
            → IsEnough (suc m) x
            → IsEnough (suc n) x
            → later m x ≡ later n x =
          λ x px qx.
            after_body (suc m) (suc n)
              (with_escape is_inferred_memory cells wire loop_body none (λ _. f)) _ _ x
              (in_body_Keeps f k)
              (λ y.
                after_tick m n statement _ _ y (λ z. while_fuel m n statement body cond flag f z k))
              px qx in
        >>=-ext (lang.eval cond c) _ _ (λ r e.
          let pd = IsEnough-kept (suc m) c r.1 (eval_keeps cond c r.1 r.0 e) p in
          let qd = IsEnough-kept (suc n) c r.1 (eval_keeps cond c r.1 r.0 e) q in
          >>=-ext (evaluate wire r.1.process.vstate (of_variable flag 1)) _ _ (λ v _.
            by_signal_same
              (logic_or cells
                (logic_not lang is_inferred_memory cells wire rank (reduce_bool cells r.0)) v)
              (in_switch is_inferred_memory cells wire rank
                (logic_or cells
                  (logic_not lang is_inferred_memory cells wire rank (reduce_bool cells r.0)) v)
                s0 statement body (first m))
              some (later m)
              (in_switch is_inferred_memory cells wire rank
                (logic_or cells
                  (logic_not lang is_inferred_memory cells wire rank (reduce_bool cells r.0)) v)
                s0 statement body (first n))
              some (later n) r.1
              (in_switch_same
                (logic_or cells
                  (logic_not lang is_inferred_memory cells wire rank (reduce_bool cells r.0)) v)
                s0 statement body (first m) (first n) r.1
                (λ x u.
                  after_body (suc m) (suc n)
                    (assign is_inferred_memory cells wire (of_variable flag 1) (state s0 ∷ [])) _ _
                    x
                    (assign-Keeps is_inferred_memory cells wire (of_variable flag 1)
                      (state s0 ∷ []))
                    round (IsEnough-same (suc m) r.1 x u pd) (IsEnough-same (suc n) r.1 x u qd)))
              refl (round r.1 pd qd)))

    unless_broken_same :
        (m n statement body : ℕ) (flag : Variable) (f g : Context → Option Context) (c : Context)
        → ((x : Context) → IsEnough m x → IsEnough n x → f x ≡ g x)
        → IsEnough m c
        → IsEnough n c
        → unless_broken lang is_inferred_memory cells wire rank statement body flag f c
          ≡ unless_broken lang is_inferred_memory cells wire rank statement body flag g c
    unfolding unless_broken
    unless_broken_same m n statement body flag f g c h p q =
        >>=-ext (substitute_rvalue wire (of_variable flag 1) c.process) _ _ (λ v _.
          by_signal_same v (in_switch is_inferred_memory cells wire rank v s0 statement body f) some
            f (in_switch is_inferred_memory cells wire rank v s0 statement body g) some g c
            (in_switch_same v s0 statement body f g c
              (λ x u. h x (IsEnough-same m c x u p) (IsEnough-same n c x u q)))
            refl (h c p q))

    for_fuel :
        (m n statement body : ℕ) (stop : Expr) (steps : List Expr) (flag : Variable)
        (f : Context → Option Context) (c : Context)
        → Keeps f
        → IsEnough m c
        → IsEnough n c
        → for_rounds lang is_inferred_memory cells wire rank m statement body stop steps flag f c
          ≡ for_rounds lang is_inferred_memory cells wire rank n statement body stop steps flag f c
    unfolding for_rounds
    for_fuel zero n statement body stop steps flag f c k p q = absurd (omega (arith, p.0))
    for_fuel (suc m) zero statement body stop steps flag f c k p q = absurd (omega (arith, q.0))
    for_fuel (suc m) (suc n) statement body stop steps flag f c k p q =
        let rest : ℕ → Context → Option Context = λ l z.
          (eval_all lang is_inferred_memory cells wire rank steps z
            >>= tick statement (
                for_rounds lang is_inferred_memory cells wire rank l statement body stop steps flag
                  f)) in
        let later : ℕ → Context → Option Context = λ l x.
          with_escape is_inferred_memory cells wire loop_body none (λ _. f) x
          >>= unless_broken lang is_inferred_memory cells wire rank statement body flag (rest l) in
        let round : (x : Context)
            → IsEnough (suc m) x
            → IsEnough (suc n) x
            → later m x ≡ later n x =
          λ x px qx.
            after_body (suc m) (suc n)
              (with_escape is_inferred_memory cells wire loop_body none (λ _. f)) _ _ x
              (in_body_Keeps f k)
              (λ y py qy.
                unless_broken_same (suc m) (suc n) statement body flag (rest m) (rest n) y
                  (λ z pz qz.
                    after_body (suc m) (suc n)
                      (eval_all lang is_inferred_memory cells wire rank steps) _ _ z
                      (eval_all-Keeps lang is_inferred_memory cells wire rank eval_keeps
                        inside_keeps steps)
                      (λ w.
                        after_tick m n statement _ _ w
                          (λ t. for_fuel m n statement body stop steps flag f t k))
                      pz qz)
                  py qy)
              px qx in
        >>=-ext (lang.eval stop c) _ _ (λ r e.
          let pd = IsEnough-kept (suc m) c r.1 (eval_keeps stop c r.1 r.0 e) p in
          let qd = IsEnough-kept (suc n) c r.1 (eval_keeps stop c r.1 r.0 e) q in
          by_signal_same (reduce_bool cells r.0)
            (in_switch is_inferred_memory cells wire rank (reduce_bool cells r.0) s1 statement body
              (later m))
            (later m) some
            (in_switch is_inferred_memory cells wire rank (reduce_bool cells r.0) s1 statement body
              (later n))
            (later n) some r.1
            (in_switch_same (reduce_bool cells r.0) s1 statement body (later m) (later n) r.1
              (λ x u.
                round x (IsEnough-same (suc m) r.1 x u pd) (IsEnough-same (suc n) r.1 x u qd)))
            (round r.1 pd qd) refl)

    next_round_same :
        (next : Option (List (Option Index))) (m n statement : ℕ) (dims : List LoopDim)
        (indices : List (Option Index)) (f g : List (Option Index) → Context → Option Context)
        (c : Context)
        → ((r : List (Option Index)) (x : Context) → IsEnough m x → IsEnough n x → f r x ≡ g r x)
        → IsEnough (suc m) c
        → IsEnough (suc n) c
        → next_round lang is_inferred_memory cells wire rank next statement dims indices f c
          ≡ next_round lang is_inferred_memory cells wire rank next statement dims indices g c
    unfolding next_round
    next_round_same none m n statement dims indices f g c h p q = refl
    next_round_same (some r) m n statement dims indices f g c h p q =
        after_body (suc m) (suc n) (set_iterators lang is_inferred_memory cells wire rank dims r) _
          _ c
          (set_iterators-Keeps lang is_inferred_memory cells wire rank eval_keeps inside_keeps dims
            r)
          (λ x. after_tick m n statement (f r) (g r) x (h r)) p q

    foreach_fuel :
        (m n statement body : ℕ) (dims : List LoopDim) (indices : List (Option Index))
        (flag : Variable) (f : Context → Option Context) (c : Context)
        → Keeps f
        → IsEnough m c
        → IsEnough n c
        → foreach_rounds lang is_inferred_memory cells wire rank m statement body dims indices flag
            f c
          ≡ foreach_rounds lang is_inferred_memory cells wire rank n statement body dims indices
              flag f c
    unfolding foreach_rounds
    foreach_fuel zero n statement body dims indices flag f c k p q = absurd (omega (arith, p.0))
    foreach_fuel (suc m) zero statement body dims indices flag f c k p q =
        absurd (omega (arith, q.0))
    foreach_fuel (suc m) (suc n) statement body dims indices flag f c k p q =
        after_body (suc m) (suc n)
          (with_escape is_inferred_memory cells wire loop_body none (λ _. f)) _ _ c
          (in_body_Keeps f k)
          (λ y py qy.
            unless_broken_same (suc m) (suc n) statement body flag _ _ y
              (λ z.
                next_round_same (next_indices indices) m n statement dims indices _ _ z
                  (λ r t. foreach_fuel m n statement body dims r flag f t k))
              py qy)
          p q

    -- While a loop is being unrolled, a while, for or foreach loop whose body leaves what it enters runs the
    -- same with two units of fuel more than the limit on unrolling as with any amount beyond that: the limit
    -- stops it before. The evaluation of expressions and of `inside` is taken to leave what it enters.
    pub loops_fuel :
        (extra statement body : ℕ) (condition : Expr) (steps : List Expr) (dims : List LoopDim)
        (indices : List (Option Index)) (flag : Variable) (f : Context → Option Context)
        (c : Context)
        → Keeps f
        → 0 < c.unroll.unrolling
        → (while_rounds lang is_inferred_memory cells wire rank
              (suc (suc c.unroll.limit) + extra)
              statement
              body
              condition
              flag
              f
              c
            ≡ while_rounds lang is_inferred_memory cells wire rank
                (suc (suc c.unroll.limit))
                statement
                body
                condition
                flag
                f
                c)
          × (for_rounds lang is_inferred_memory cells wire rank
                (suc (suc c.unroll.limit) + extra)
                statement
                body
                condition
                steps
                flag
                f
                c
              ≡ for_rounds lang is_inferred_memory cells wire rank
                  (suc (suc c.unroll.limit))
                  statement
                  body
                  condition
                  steps
                  flag
                  f
                  c)
          × (foreach_rounds lang is_inferred_memory cells wire rank
                (suc (suc c.unroll.limit) + extra)
                statement
                body
                dims
                indices
                flag
                f
                c
              ≡ foreach_rounds lang is_inferred_memory cells wire rank
                  (suc (suc c.unroll.limit))
                  statement
                  body
                  dims
                  indices
                  flag
                  f
                  c)
    loops_fuel extra statement body condition steps dims indices flag f c k h =
        let m : ℕ = suc (suc c.unroll.limit) + extra in
        let n : ℕ = suc (suc c.unroll.limit) in
        let p : IsEnough m c = (omega arith, h, omega arith) in
        let q : IsEnough n c = (omega arith, h, omega arith) in
        (
          while_fuel m n statement body condition flag f c k p q,
          for_fuel m n statement body condition steps flag f c k p q,
          foreach_fuel m n statement body dims indices flag f c k p q,
        )
