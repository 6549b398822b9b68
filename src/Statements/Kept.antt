-- ===== src/Statements/Kept.antt =====
-- src/statements.h and src/procedural.cc: the guards, switches and loops of StatementExecutor leave what
-- they enter.
use yosys_slang.Base.{
  elim_true, elim_false, ℕ, zero, suc, ◌<◌, ◌≤◌, ◌≡◌, refl, sym, ap, subst, ◌∙◌, Bool, true, false,
  not, Option, none, some, List, [], ◌∷◌, if◌then◌else◌, ◌==◌, ltb, length, drop, log_assert, ◌>>=◌,
  >>=-some, some_inj, Bool-cases, inl, inr, arith, ==_iff, if_true, if_false,
}
use yosys_slang.Rtlil.{SigBit, SigSpec, State, s0, s1, state, is_fully_const}
use yosys_slang.Variables.{Symbol, Variable, VariableBits, escape_flag, of_variable}
use yosys_slang.Builder.Gates.{Cells}
use yosys_slang.State.{save, restore}
use yosys_slang.Procedural.{
  EscapeKind, EscapeFrame, Process, do_simple_assign, register_escape, signal_frames, signal_escape,
  escape_number,
}
use yosys_slang.Procedural.Steady.{IsSteady, IsSteady-trans, do_simple_assign-IsSteady}
use yosys_slang.Procedural.Unrolling.{UnrollLimit, unroll_tick, enter_unrolling, exit_unrolling}
use yosys_slang.Statements.Merge.{finish_values}
use yosys_slang.Statements.Context.{
  updates_of, Context, SwitchHelper, new_switch, enter_branch, exit_branch, branch, finish, descend,
  is_dead,
}
use yosys_slang.Statements.Guards.{
  as_bool, by_signal, on_process, erase_scope, with_scope, assign, with_escape, escape, in_switch,
  tick, leave_unrolling,
}

-- The stack of escape constructs, the scopes, and the depth and limit of unrolling are as before; where a
-- loop is being unrolled, rounds are only added to the count.
pub record IsKept (c d : Context) : Type 0 where
  pub escapes : d.process.escape_stack ≡ c.process.escape_stack
  pub same_scopes : d.scopes ≡ c.scopes
  pub unrolling : d.unroll.unrolling ≡ c.unroll.unrolling
  pub limit : d.unroll.limit ≡ c.unroll.limit
  pub counted : 0 < c.unroll.unrolling → c.unroll.unroll_counter ≤ d.unroll.unroll_counter

abbrev pub Keeps : (Context → Option Context) → Type 0
Keeps f = (c d : Context) → f c ≡ some d → IsKept c d

pub IsKept-refl : (c : Context) → IsKept c c
IsKept-refl c = record {
  escapes = refl;
  same_scopes = refl;
  unrolling = refl;
  limit = refl;
  counted = λ h. omega arith;
}

pub IsKept-trans : (c d e : Context) → IsKept c d → IsKept d e → IsKept c e
IsKept-trans c d e h k = record {
  escapes = k.escapes ∙ h.escapes;
  same_scopes = k.same_scopes ∙ h.same_scopes;
  unrolling = k.unrolling ∙ h.unrolling;
  limit = k.limit ∙ h.limit;
  counted = λ p. omega (arith, h.counted p, k.counted (omega (arith, h.unrolling)));
}

-- One after the other.
pub bind_Keeps : (g f : Context → Option Context) → Keeps g → Keeps f → Keeps (λ c. g c >>= f)
bind_Keeps g f h k c d e =
    let (x, p, q) = >>=-some (g c) f d e in IsKept-trans c x d (h c x p) (k x d q)

pub on_process-Keeps :
    (f : Process → Option Process)
    → ((p q : Process) → f p ≡ some q → IsSteady p q)
    → Keeps (on_process f)
unfolding on_process
on_process-Keeps f h c d e =
    let (q, p, r) = >>=-some (f c.process) (λ p. some (record c { process = p })) d e in
    subst (IsKept c) (some_inj _ d r) (record {
      escapes = (h c.process q p).escapes;
      same_scopes = refl;
      unrolling = refl;
      limit = refl;
      counted = λ h. omega arith;
    })

erase_first : (s : ℕ) (l r : List ℕ) → erase_scope s (s ∷ l) ≡ some r → l ≡ r
unfolding erase_scope
erase_first s l r e = ground arith

pub with_scope-Keeps :
    (s : Option ℕ) (f : Context → Option Context) → Keeps f → Keeps (with_scope s f)
unfolding with_scope
with_scope-Keeps none f h c d e = h c d e
with_scope-Keeps (some s) f h c d e =
    let c' = record c { scopes = s ∷ c.scopes } in
    let (x, p, q) = >>=-some (f c') _ d e in
    let (l, p', q') = >>=-some (erase_scope s x.scopes) _ d q in
    let k = h c' x p in
    let z : c.scopes ≡ l = erase_first s c.scopes l (ap (erase_scope s) (sym k.same_scopes) ∙ p') in
    subst (IsKept c) (some_inj _ d q') (record {
      escapes = k.escapes;
      same_scopes = sym z;
      unrolling = k.unrolling;
      limit = k.limit;
      counted = k.counted;
    })

within : (m n : ℕ) → ltb m n ≡ false → n ≤ m
within m n h = ground arith

module _ (is_inferred_memory : Symbol → Bool) (cells : Cells) (wire : Symbol → ℕ → SigBit) where
  pub assign-Keeps :
      (lhs : VariableBits) (value : SigSpec)
      → Keeps (assign is_inferred_memory cells wire lhs value)
  unfolding assign
  assign-Keeps lhs value c d e =
      on_process-Keeps (do_simple_assign is_inferred_memory cells wire lhs value true)
        (do_simple_assign-IsSteady is_inferred_memory cells wire lhs value true) c d e

  signal_frames-IsSteady :
      (kind : EscapeKind) (l : List EscapeFrame) (p q : Process)
      → signal_frames is_inferred_memory cells wire kind l p ≡ some q
      → IsSteady p q
  unfolding signal_frames
  signal_frames-IsSteady kind [] p q e = cc
  signal_frames-IsSteady kind (f ∷ l) p q e =
      let (r, a, b) =
        >>=-some
          (do_simple_assign is_inferred_memory cells wire (of_variable f.flag 1) (state s1 ∷ [])
            true p)
          _ q e in
      let s =
        do_simple_assign-IsSteady is_inferred_memory cells wire (of_variable f.flag 1)
          (state s1 ∷ []) true p r a in
      elim (Bool-cases (escape_number f.kind == escape_number kind)) [
        | inl c ↦ subst (IsSteady p) (some_inj r q (if_true _ _ _ _ c b)) s
        | inr c ↦ IsSteady-trans p r q s (signal_frames-IsSteady kind l r q (if_false _ _ _ _ c b))
      ]

  pub escape-Keeps : (kind : EscapeKind) → Keeps (escape is_inferred_memory cells wire kind)
  unfolding escape signal_escape
  escape-Keeps kind c d e =
      on_process-Keeps (signal_escape is_inferred_memory cells wire kind)
        (λ p q. signal_frames-IsSteady kind p.escape_stack p q) c d e

  -- Registering puts one frame on the stack.
  pub register_escape_lem :
      (kind : EscapeKind) (subroutine : Option ℕ) (p q : Process)
      → register_escape is_inferred_memory cells wire kind subroutine p ≡ some q
      → (q.escape_stack
          ≡ record { flag = escape_flag p.flag_counter; subroutine = subroutine; kind = kind }
            ∷ p.escape_stack)
        × (q.initial ≡ p.initial)
        × (p.initial ≡ true → q.vstate ≡ p.vstate)
  unfolding register_escape
  register_escape_lem kind subroutine p q e =
      let p' = record p {
        flag_counter = suc p.flag_counter;
        escape_stack =
            record { flag = escape_flag p.flag_counter; subroutine = subroutine; kind = kind }
            ∷ p.escape_stack;
      } in
      let s =
        do_simple_assign-IsSteady is_inferred_memory cells wire
          (of_variable (escape_flag p.flag_counter) 1) (state s0 ∷ []) true p' q e in
      (s.escapes, s.same_kind, s.values)

  pub with_escape-Keeps :
      (kind : EscapeKind) (subroutine : Option ℕ) (f : Variable → Context → Option Context)
      → ((v : Variable) → Keeps (f v))
      → Keeps (with_escape is_inferred_memory cells wire kind subroutine f)
  unfolding with_escape on_process
  with_escape-Keeps kind subroutine f h c d e =
      let (x, p, q) =
        >>=-some (on_process (register_escape is_inferred_memory cells wire kind subroutine) c) _ d
          e in
      let (r, p', q') =
        >>=-some (register_escape is_inferred_memory cells wire kind subroutine c.process)
          (λ p. some (record c { process = p })) x p in
      let (y, a, b) = >>=-some (f (escape_flag c.process.flag_counter) x) _ d q in
      let (s, _, _) = register_escape_lem kind subroutine c.process r p' in
      let xr : record c { process = r } ≡ x = some_inj _ x q' in
      let k : IsKept (record c { process = r }) y =
        h (escape_flag c.process.flag_counter) (record c { process = r }) y
          (ap (f (escape_flag c.process.flag_counter)) xr ∙ a) in
      subst (IsKept c) (some_inj _ d b) (record {
        escapes = ap (drop 1) (k.escapes ∙ s);
        same_scopes = k.same_scopes;
        unrolling = k.unrolling;
        limit = k.limit;
        counted = k.counted;
      })

  module _ (rank : Symbol → ℕ) where
    pub enter_branch-Keeps :
        (compare : List SigSpec) (statement : Option ℕ) (h h' : SwitchHelper) (c d : Context)
        → enter_branch compare statement h c ≡ some (h', d)
        → IsKept c d × (d.unroll ≡ c.unroll)
    unfolding enter_branch save
    enter_branch-Keeps compare statement h h' c d e =
        let (_, _, q) = >>=-some (log_assert (not h.entered)) _ (h', d) e in
        let (_, _, r) = >>=-some (log_assert (length c.outer == h.depth)) _ (h', d) q in
        subst (λ x. IsKept c x × (x.unroll ≡ c.unroll)) (ap (λ x. x.1) (some_inj _ (h', d) r))
          (
            record {
              escapes = refl;
              same_scopes = refl;
              unrolling = refl;
              limit = refl;
              counted = λ _. omega arith;
            },
            refl,
          )

    pub exit_branch-Keeps :
        (h h' : SwitchHelper) (c d : Context) → exit_branch rank h c ≡ some (h', d) → IsKept c d
    unfolding exit_branch
    exit_branch-Keeps h h' c d e =
        let (_, _, q) = >>=-some (log_assert h.entered) _ (h', d) e in
        let (_, _, r) = >>=-some (restore rank c.process.vstate h.save_map) _ (h', d) q in
        subst (IsKept c) (ap (λ x. x.1) (some_inj _ (h', d) r)) (record {
          escapes = refl;
          same_scopes = refl;
          unrolling = refl;
          limit = refl;
          counted = λ _. omega arith;
        })

    pub finish-Keeps : (h : SwitchHelper) → Keeps (finish wire rank h)
    unfolding finish
    finish-Keeps h c d e =
        let (_, _, q) =
          >>=-some (finish_values wire rank c.process.vstate c.next_wire (updates_of h.branches)) _
            d e in
        subst (IsKept c) (some_inj _ d q) (record {
          escapes = refl;
          same_scopes = refl;
          unrolling = refl;
          limit = refl;
          counted = λ _. omega arith;
        })

    pub in_switch-Keeps :
        (signal : SigSpec) (value : State) (statement body : ℕ) (f : Context → Option Context)
        → Keeps f
        → Keeps (in_switch is_inferred_memory cells wire rank signal value statement body f)
    unfolding in_switch
    in_switch-Keeps signal value statement body f k c d e =
        let ((h, x), p, q) =
          >>=-some
            (enter_branch ((state value ∷ []) ∷ []) (some body)
              (new_switch signal (some statement) c) c)
            _ d e in
        let (y, p', q') = >>=-some (f x) _ d q in
        let ((h', z), a, b) = >>=-some (exit_branch rank h y) _ d q' in
        IsKept-trans c x d
          (enter_branch-Keeps ((state value ∷ []) ∷ []) (some body)
            (new_switch signal (some statement) c) h c x p).0
          (IsKept-trans x y d (k x y p')
            (IsKept-trans y z d (exit_branch-Keeps h h' y z a) (finish-Keeps h' z d b)))

    pub branch-Keeps :
        (compare : List SigSpec) (statement : Option ℕ) (f : Context → Option Context)
        → Keeps f
        → (h h' : SwitchHelper) (c d : Context)
        → branch rank compare statement f (h, c) ≡ some (h', d)
        → IsKept c d
    unfolding branch
    branch-Keeps compare statement f k h h' c d e = elim (Bool-cases (is_dead compare h.signal)) [
      | inl i ↦
          subst (IsKept c) (ap (λ x. x.1) (some_inj (h, c) (h', d) (if_true _ _ _ _ i e)))
            (IsKept-refl c)
      | inr i ↦
          let ((h1, x), p, q) =
            >>=-some (enter_branch compare statement h c) _ (h', d) (if_false _ _ _ _ i e) in
          let (y, p', q') = >>=-some (f x) _ (h', d) q in
          IsKept-trans c x d (enter_branch-Keeps compare statement h h1 c x p).0
            (IsKept-trans x y d (k x y p') (exit_branch-Keeps h1 h' y d q'))
    ]

pub descend-Keeps : (c : Context) → IsKept c (descend c)
unfolding descend
descend-Keeps c = record {
  escapes = refl;
  same_scopes = refl;
  unrolling = refl;
  limit = refl;
  counted = λ _. omega arith;
}

-- What a tick does to the count.
abbrev pub IsTicked : UnrollLimit → Bool × UnrollLimit → Type 0
IsTicked u r =
    (r.1.unrolling ≡ u.unrolling)
    × (r.1.limit ≡ u.limit)
    × (u.unroll_counter ≤ r.1.unroll_counter)
    × (r.0 ≡ true → (r.1.unroll_counter ≡ suc u.unroll_counter) × (suc u.unroll_counter ≤ u.limit))

if_IsTicked :
    (u : UnrollLimit) (b : Bool) (x y : Bool × UnrollLimit)
    → IsTicked u x
    → (b ≡ false → IsTicked u y)
    → IsTicked u (if b then x else y)
if_IsTicked u true x y h k = h
if_IsTicked u false x y h k = k refl

not_granted : {A : Type 0} → false ≡ true → A
not_granted h = cc

pub unroll_tick_lem : (s : ℕ) (u : UnrollLimit) → IsTicked u (unroll_tick s u)
unfolding unroll_tick
unroll_tick_lem s u =
    if_IsTicked u u.error_issued _ _ (refl, refl, omega arith, λ h. not_granted h)
      (λ _.
        if_IsTicked u (ltb u.limit (suc u.unroll_counter)) _ _
          (refl, refl, omega arith, λ h. not_granted h)
          (λ h. (refl, refl, omega arith, λ _. (refl, within u.limit (suc u.unroll_counter) h))))

pub some-Keeps : Keeps some
some-Keeps c d e = subst (IsKept c) (some_inj c d e) (IsKept-refl c)

pub by_signal-Keeps :
    (signal : SigSpec) (f g h : Context → Option Context)
    → Keeps f
    → Keeps g
    → Keeps h
    → Keeps (by_signal signal f g h)
unfolding by_signal
by_signal-Keeps signal f g h kf kg kh c d e = elim (Bool-cases (is_fully_const signal)) [
  | inr i ↦ kf c d (elim_false _ _ _ _ i e)
  | inl i ↦ elim (Bool-cases (as_bool signal)) [
    | inl j ↦ kg c d (elim_true _ _ _ _ j (elim_true _ _ _ _ i e))
    | inr j ↦ kh c d (elim_false _ _ _ _ j (elim_true _ _ _ _ i e))
  ]
]

pub elim_none :
    {A : Type 0} (o : Option A) (x : Option Context) (f : A → Option Context) (z : Option Context)
    → o ≡ none
    → (elim o as (λ _. Option Context) [ none ↦ x | some a ↦ f a ]) ≡ z
    → x ≡ z
elim_none none x f z h e = e
elim_none (some a) x f z h e = cc

pub elim_some :
    {A : Type 0} (o : Option A) (a : A) (x : Option Context) (f : A → Option Context)
    (z : Option Context)
    → o ≡ some a
    → (elim o as (λ _. Option Context) [ none ↦ x | some a ↦ f a ]) ≡ z
    → f a ≡ z
elim_some none a x f z h e = cc
elim_some (some b) a x f z h e = ap f (sym (some_inj b a h)) ∙ e

pub tick-Keeps : (s : ℕ) (f : Context → Option Context) → Keeps f → Keeps (tick s f)
unfolding tick
tick-Keeps s f k c d e =
    let x = record c { unroll = (unroll_tick s c.unroll).1 } in
    let (a, b, m, _) = unroll_tick_lem s c.unroll in
    let t : IsKept c x = record {
      escapes = refl;
      same_scopes = refl;
      unrolling = a;
      limit = b;
      counted = λ _. m;
    } in
    elim (Bool-cases (unroll_tick s c.unroll).0) [
      | inl g ↦ IsKept-trans c x d t (k x d (elim_true _ (f x) (some x) (some d) g e))
      | inr g ↦ subst (IsKept c) (some_inj x d (elim_false _ (f x) (some x) (some d) g e)) t
    ]

if_entered :
    (u : UnrollLimit) (b : Bool) (x y : UnrollLimit)
    → (b ≡ true
        → (x.unrolling ≡ suc u.unrolling)
          × (x.limit ≡ u.limit)
          × (0 < u.unrolling → x.unroll_counter ≡ u.unroll_counter))
    → (y.unrolling ≡ suc u.unrolling)
      × (y.limit ≡ u.limit)
      × (0 < u.unrolling → y.unroll_counter ≡ u.unroll_counter)
    → ((if b then x else y).unrolling ≡ suc u.unrolling)
      × ((if b then x else y).limit ≡ u.limit)
      × (0 < u.unrolling → (if b then x else y).unroll_counter ≡ u.unroll_counter)
if_entered u true x y h k = h refl
if_entered u false x y h k = k

-- What is done inside the count of unrolled loops.
pub enter_unrolling_lem :
    (u : UnrollLimit)
    → ((enter_unrolling u).unrolling ≡ suc u.unrolling)
      × ((enter_unrolling u).limit ≡ u.limit)
      × (0 < u.unrolling → (enter_unrolling u).unroll_counter ≡ u.unroll_counter)
unfolding enter_unrolling
enter_unrolling_lem u =
    if_entered u (u.unrolling == 0) _ _
      (λ h.
        let z : u.unrolling ≡ 0 = (==_iff u.unrolling 0).0 h in
        (ap suc (sym z), refl, λ k. absurd (omega (arith, z))))
      (refl, refl, λ _. refl)

exit_by :
    (m : ℕ) (u w : UnrollLimit)
    → (elim m as (λ _. Option UnrollLimit) [
      | zero ↦ none
      | suc n ↦ some (record u { unrolling = n })
    ])
      ≡ some w
    → (n : ℕ) × (m ≡ suc n) × (record u { unrolling = n } ≡ w)
exit_by zero u w e = cc
exit_by (suc n) u w e = (n, refl, some_inj _ w e)

pub leave_unrolling_lem :
    (c d : Context)
    → leave_unrolling c ≡ some d
    → (n : ℕ) × (c.unroll.unrolling ≡ suc n)
      × (record c { unroll = record c.unroll { unrolling = n } } ≡ d)
unfolding leave_unrolling exit_unrolling
leave_unrolling_lem c d e =
    let (u, p, q) = >>=-some (exit_unrolling c.unroll) _ d e in
    let (n, z, w) = exit_by c.unroll.unrolling c.unroll u p in
    (n, z, subst (λ u. record c { unroll = u } ≡ d) (sym w) (some_inj _ d q))
