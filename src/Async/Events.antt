-- ===== src/Async/Events.antt =====
-- src/async_pattern.cc, `handle_always`: the decision on a block, read off its list of events.
use yosys_slang.Base.{
  ◌≡◌, ◌≢◌, inl, inr, refl, sym, ap, ◌∙◌, Bool, true, false, ◌&&◌, ◌||◌, not, some, List, [], ◌∷◌,
  ◌++◌, if◌then◌else◌, ltb, length, arith, append_assoc, append-nil, Bool-cases,
}
use yosys_slang.Async.Defs.{
  Expression, EdgeKind, no_edge, pos_edge, neg_edge, both_edges, SignalEvent, TimingControl,
  signal_event, implicit_event, event_list, delay, other_timing, ProcedureKind, always, always_ff,
  is_always_ff, Diag, iff_unsupported, edge_implicit_mixing, Settings, Triggers, on_edge, on_event,
  on_events, comb_like, edge_triggered, nothing, handle_always,
}

-- The event makes the block one without a clock.
abbrev pub is_implicit : Settings → ProcedureKind → TimingControl → Bool
is_implicit settings kind (signal_event ev) = elim ev.edge [
  | no_edge ↦ not (is_always_ff kind)
  | _ ↦ false
]
is_implicit settings kind implicit_event = not (is_always_ff kind)
is_implicit settings kind delay = settings.ignore_timing
is_implicit settings kind _ = false

abbrev pub any_implicit : Settings → ProcedureKind → List TimingControl → Bool
any_implicit settings kind [] = false
any_implicit settings kind (ev ∷ l) = is_implicit settings kind ev || any_implicit settings kind l

-- The event is an edge that the settings allow.
abbrev pub is_trigger : Settings → EdgeKind → Bool
is_trigger settings no_edge = false
is_trigger settings pos_edge = true
is_trigger settings neg_edge = true
is_trigger settings both_edges = settings.allow_dual_edge_ff

abbrev pub edges : Settings → List TimingControl → List SignalEvent
edges settings [] = []
edges settings (signal_event ev ∷ l) =
    if is_trigger settings ev.edge then ev ∷ edges settings l else edges settings l
edges settings (_ ∷ l) = edges settings l

-- No event is a list of events.
abbrev pub IsFlatList : List TimingControl → Type 0
IsFlatList [] = Unit {0}
IsFlatList (ev ∷ l) = (ev ≢ event_list) × IsFlatList l

on_edge_cases :
    (settings : Settings) (kind : ProcedureKind) (edge : EdgeKind) (expr : Expression)
    (has_iff : Bool) (t : Triggers)
    → let ev : SignalEvent = record { edge = edge; expr = expr; has_iff = has_iff } in
      ((on_edge settings kind ev t).implicit
        ≡ (t.implicit || is_implicit settings kind (signal_event ev)))
      × ((on_edge settings kind ev t).triggers
          ≡ t.triggers ++ edges settings (signal_event ev ∷ []))
unfolding on_edge
on_edge_cases settings always no_edge expr has_iff t = (ground arith, sym (append-nil t.triggers))
on_edge_cases settings always_ff no_edge expr has_iff t =
    (ground arith, sym (append-nil t.triggers))
on_edge_cases settings kind pos_edge expr has_iff t = (ground arith, refl)
on_edge_cases settings kind neg_edge expr has_iff t = (ground arith, refl)
on_edge_cases settings kind both_edges expr has_iff t =
    elim (Bool-cases settings.allow_dual_edge_ff) [
      | inl f ↦ rw f (ground arith, refl)
      | inr f ↦ rw f (ground arith, sym (append-nil t.triggers))
    ]

on_edge_lem :
    (settings : Settings) (kind : ProcedureKind) (ev : SignalEvent) (t : Triggers)
    → ((on_edge settings kind ev t).implicit
        ≡ (t.implicit || is_implicit settings kind (signal_event ev)))
      × ((on_edge settings kind ev t).triggers
          ≡ t.triggers ++ edges settings (signal_event ev ∷ []))
unfolding on_edge
on_edge_lem settings kind ev t = on_edge_cases settings kind ev.edge ev.expr ev.has_iff t

on_event_lem :
    (settings : Settings) (kind : ProcedureKind) (ev : TimingControl) (t : Triggers)
    → ev ≢ event_list
    → (u : Triggers) × (on_event settings kind ev t ≡ some u)
      × (u.implicit ≡ (t.implicit || is_implicit settings kind ev))
      × (u.triggers ≡ t.triggers ++ edges settings (ev ∷ []))
unfolding on_event
on_event_lem settings kind (signal_event ev) t n =
    let noted = if ev.has_iff then record t { diags = t.diags ++ (iff_unsupported ∷ []) } else t in
    let (i, q) = on_edge_lem settings kind ev noted in
    (on_edge settings kind ev noted, refl, ground (arith, i), ground (arith, q))
on_event_lem settings kind implicit_event t n =
    (_, refl, ground arith, ground (arith, append-nil t.triggers))
on_event_lem settings kind event_list t n = absurd (n refl)
on_event_lem settings kind delay t n =
    (_, refl, ground arith, ground (arith, append-nil t.triggers))
on_event_lem settings kind other_timing t n =
    (_, refl, ground arith, ground (arith, append-nil t.triggers))

or_assoc : (a b c : Bool) → ((a || b) || c) ≡ (a || (b || c))
or_assoc a b c = ground arith

edges-cons :
    (settings : Settings) (ev : TimingControl) (l : List TimingControl)
    → edges settings (ev ∷ l) ≡ edges settings (ev ∷ []) ++ edges settings l
edges-cons settings (signal_event ev) l = ground arith
edges-cons settings implicit_event l = refl
edges-cons settings event_list l = refl
edges-cons settings delay l = refl
edges-cons settings other_timing l = refl

on_events_lem :
    (settings : Settings) (kind : ProcedureKind) (l : List TimingControl) (t : Triggers)
    → IsFlatList l
    → (u : Triggers) × (on_events settings kind l t ≡ some u)
      × (u.implicit ≡ (t.implicit || any_implicit settings kind l))
      × (u.triggers ≡ t.triggers ++ edges settings l)
unfolding on_events
on_events_lem settings kind [] t n = (t, refl, ground arith, sym (append-nil t.triggers))
on_events_lem settings kind (ev ∷ l) t n =
    let (u, e, i, r) = on_event_lem settings kind ev t n.0 in
    let (v, f, j, q) = on_events_lem settings kind l u n.1 in
    (
      v,
      rw (on_events, e) f,
      j
          ∙ ap (λ b. b || any_implicit settings kind l) i
          ∙ or_assoc t.implicit (is_implicit settings kind ev) (any_implicit settings kind l),
      q
          ∙ ap (λ b. b ++ edges settings l) r
          ∙ append_assoc t.triggers (edges settings (ev ∷ [])) (edges settings l)
          ∙ ap (◌++◌ t.triggers) (sym (edges-cons settings ev l)),
    )

-- The decision on a block whose list of events holds no lists: it is like combinational logic if some
-- event is one without an edge that the kind of block and the settings accept, otherwise it is
-- triggered by all the edges that the settings accept, in order, and dropped if there are none.
pub handle_always_lem :
    (settings : Settings) (kind : ProcedureKind) (l : List TimingControl)
    → IsFlatList l
    → (diags : List Diag) × (handle_always settings kind l
        ≡ some (
          (if any_implicit settings kind l
              then comb_like
              else if ltb 0 (length (edges settings l))
              then edge_triggered (edges settings l)
              else nothing),
          diags,
        ))
unfolding handle_always
handle_always_lem settings kind l n =
    let (u, e, i, r) =
      on_events_lem settings kind l (record { implicit = false; triggers = []; diags = [] }) n in
    (
      u.diags
          ++ (if u.implicit && ltb 0 (length u.triggers) then edge_implicit_mixing ∷ [] else []),
      rw (handle_always, e, sym i, sym r) refl,
    )
