-- ===== src/Async/Defs.antt =====
-- src/async_pattern.cc: TimingPatternInterpretor. Of slang's syntax tree the data hold what the code
-- reads; an expression that stands for a signal carries the bits that `EvalContext::lhs` makes of it.
use yosys_slang.Base.{
  ℕ, zero, suc, Bool, true, false, ◌&&◌, not, Option, none, some, List, [], ◌∷◌, ◌++◌,
  if◌then◌else◌, ◌==◌, ltb, length, ◌>>=◌,
}
use yosys_slang.Variables.{
  VariableBit, VariableBits, dummy, of_variable, bitwidth, bit_at, same_bits, has_dummy_bits,
}

pub data EdgeKind : Type 0 where
  no_edge pos_edge neg_edge both_edges : EdgeKind

-- `ast::Expression`, with the width of its type; a constant has no unknown bits.
pub data Expression : Type 0 where
  reference : VariableBits → Expression
  logical_not : Expression → Expression
  bitwise_not : Expression → Expression
  -- The left side is compared with a constant of its width: the width, and the constant.
  equality : Expression → ℕ → ℕ → Expression
  conversion : Expression → ℕ → Expression
  other_expression : ℕ → Expression

abbrev pub width : Expression → ℕ
width (reference v) = bitwidth v
width (logical_not e) = 1
width (bitwise_not e) = width e
width (equality e w c) = 1
width (conversion e w) = w
width (other_expression w) = w

-- `eval.lhs(expr, silent)`: dummy bits where the expression does not name a signal.
unfoldable pub lhs : Expression → VariableBits
lhs (reference v) = v
lhs e = of_variable (dummy (width e)) (width e)

pub record SignalEvent : Type 0 where
  pub edge : EdgeKind
  pub expr : Expression
  pub has_iff : Bool

-- `ast::TimingControl` below the list of events.
pub data TimingControl : Type 0 where
  signal_event : SignalEvent → TimingControl
  implicit_event event_list delay other_timing : TimingControl

pub data ProcedureKind : Type 0 where
  always always_ff : ProcedureKind

pub data Diag : Type 0 where
  iff_unsupported always_ff_bad_timing signal_sensitivity_ambiguous both_edges_unsupported : Diag
  generic_timing_unsyn unsynthesizable_feature edge_implicit_mixing : Diag
  expecting_if_else_aload if_else_aload_polarity if_else_aload_mismatch : Diag

pub record Settings : Type 0 where
  pub allow_dual_edge_ff : Bool
  pub ignore_timing : Bool

-- What the loop of `handle_always` keeps.
pub record Triggers : Type 0 where
  pub implicit : Bool
  pub triggers : List SignalEvent
  pub diags : List Diag

abbrev pub is_always_ff : ProcedureKind → Bool
is_always_ff always = false
is_always_ff always_ff = true

-- The `switch` on the edge of a signal event.
unfoldable pub on_edge : Settings → ProcedureKind → SignalEvent → Triggers → Triggers
on_edge settings kind ev t = elim ev.edge [
  | no_edge ↦
      if is_always_ff kind
      then record t { diags = t.diags ++ (always_ff_bad_timing ∷ []) }
      else record t { implicit = true; diags = t.diags ++ (signal_sensitivity_ambiguous ∷ []) }
  | pos_edge ↦ record t { triggers = t.triggers ++ (ev ∷ []) }
  | neg_edge ↦ record t { triggers = t.triggers ++ (ev ∷ []) }
  | both_edges ↦
      if settings.allow_dual_edge_ff
      then record t { triggers = t.triggers ++ (ev ∷ []) }
      else record t { diags = t.diags ++ (both_edges_unsupported ∷ []) }
]

-- The body of the loop over the events.
unfoldable pub on_event : Settings → ProcedureKind → TimingControl → Triggers → Option Triggers
unfolding on_edge
on_event settings kind (signal_event ev) t = some (
    on_edge settings kind ev
      (if ev.has_iff then record t { diags = t.diags ++ (iff_unsupported ∷ []) } else t))
on_event settings kind implicit_event t = some (
    if is_always_ff kind
    then record t { diags = t.diags ++ (always_ff_bad_timing ∷ []) }
    else record t { implicit = true })
on_event settings kind event_list t = none
on_event settings kind delay t = some (
    if settings.ignore_timing
    then record t { implicit = true }
    else record t { diags = t.diags ++ (generic_timing_unsyn ∷ []) })
on_event settings kind other_timing t =
    some (record t { diags = t.diags ++ (unsynthesizable_feature ∷ []) })

unfoldable pub on_events :
    Settings → ProcedureKind → List TimingControl → Triggers → Option Triggers
unfolding on_event
on_events settings kind [] t = some t
on_events settings kind (ev ∷ l) t = elim (on_event settings kind ev t) [
  | none ↦ none
  | some u ↦ on_events settings kind l u
]

-- What `handle_always` does with the block.
pub data Decision : Type 0 where
  comb_like : Decision
  edge_triggered : List SignalEvent → Decision
  nothing : Decision

-- `handle_always`, for a timed body.
unfoldable pub handle_always :
    Settings → ProcedureKind → List TimingControl → Option (Decision × List Diag)
unfolding on_events
handle_always settings kind events =
    elim (on_events settings kind events (record { implicit = false; triggers = []; diags = [] })) [
      | none ↦ none
      | some t ↦
          let mixing =
            if t.implicit && ltb 0 (length t.triggers) then edge_implicit_mixing ∷ [] else [] in
          some (
            (if t.implicit
                then comb_like
                else if ltb 0 (length t.triggers)
                then edge_triggered t.triggers
                else nothing),
            t.diags ++ mixing,
          )
    ]

mutual
  -- `ast::Statement`: a block has its kind (sequential or not) and its symbol, a conditional what the
  -- code asks of it (no check, one condition, no pattern), its condition and its branches.
  pub data Statement : Type 0 where
    block : Bool → Option ℕ → Statement → Statement
    list : Statements → Statement
    expression_statement : ℕ → Statement
    variable_declaration : ℕ → Statement
    conditional : Bool → Expression → Statement → Statement → Statement
    if_without_else : Bool → Expression → Statement → Statement
    other_statement : ℕ → Statement

  pub data Statements : Type 0 where
    no_statement : Statements
    add_statement : Statement → Statements → Statements

pub record Peeled : Type 0 where
  pub prologue_block : Option ℕ
  pub prologue : List Statement
  pub stmt : Statement

abbrev pub is_prologue : Statement → Bool
is_prologue (expression_statement n) = true
is_prologue (variable_declaration n) = true
is_prologue _ = false

unfoldable mutual
  -- The first loop of `interpret_async_pattern`; `many` says that there are several triggers.
  pub peel : Bool → Option ℕ → List Statement → Statement → Peeled
  peel many none prologue (block true sym body) = peel many sym prologue body
  peel true sym prologue (list l) = peel_list sym prologue (list l) [] l
  peel many sym prologue stmt = record { prologue_block = sym; prologue = prologue; stmt = stmt }

  -- The loop over the statements of a list, `pending` being `pending_prologue`; `whole` stays where the
  -- list does not end in the one statement that is looked for.
  pub peel_list : Option ℕ → List Statement → Statement → List Statement → Statements → Peeled
  peel_list sym prologue whole pending no_statement = record {
    prologue_block = sym;
    prologue = prologue;
    stmt = whole;
  }
  peel_list sym prologue whole pending (add_statement s no_statement) =
      let found = peel true sym (prologue ++ pending) s in
      if is_prologue s
      then record { prologue_block = sym; prologue = prologue; stmt = whole }
      else found
  peel_list sym prologue whole pending (add_statement s (add_statement s' l)) =
      let rest = peel_list sym prologue whole (pending ++ (s ∷ [])) (add_statement s' l) in
      if is_prologue s
      then rest
      else record { prologue_block = sym; prologue = prologue; stmt = whole }

-- The loop that simplifies the condition: what is left, and the polarity.
unfoldable pub strip : Expression → Bool → Expression × Bool
strip (logical_not e) polarity = strip e (not polarity)
strip (bitwise_not e) polarity = strip e (not polarity)
strip (equality e w c) polarity =
    let same = strip e polarity in
    let flipped = strip e (not polarity) in
    if w == 1 && c == 1 then same else if c == 0 then flipped else (equality e w c, polarity)
strip (conversion e w) polarity =
    let inner = strip e polarity in if ltb (width e) w then inner else (conversion e w, polarity)
strip e polarity = (e, polarity)

pub record AsyncBranch : Type 0 where
  pub trigger : VariableBit
  pub polarity : Bool
  pub body : Statement

-- `std::find_if` and `erase`: the first trigger of the signal, and the others.
unfoldable pub take_trigger :
    VariableBits → List SignalEvent → Option (SignalEvent × List SignalEvent)
unfolding lhs
take_trigger v [] = none
take_trigger v (t ∷ l) =
    let later = take_trigger v l in
    if same_bits (lhs t.expr) v
    then some (t, l)
    else (do found ← later; some (found.0, t ∷ found.1))

abbrev pub is_edge_of : Bool → EdgeKind → Bool
is_edge_of true pos_edge = true
is_edge_of false neg_edge = true
is_edge_of _ _ = false

-- What is handed to `handle_ff_process`: its trigger, the statement that is left, and `found_async`.
pub record FlipFlop : Type 0 where
  pub clock : SignalEvent
  pub stmt : Statement
  pub found_async : List AsyncBranch
  pub diags : List Diag

-- The loop that infers asynchronous loads; `none` is the return behind a diagnostic. A turn takes one
-- trigger away, so as much fuel as there are triggers is enough.
unfoldable pub infer : ℕ → List SignalEvent → Statement → Option FlipFlop
unfolding take_trigger strip lhs
infer fuel [] stmt = none
infer fuel (t ∷ []) stmt = some (record { clock = t; stmt = stmt; found_async = []; diags = [] })
infer zero (t ∷ u ∷ l) stmt = none
infer (suc fuel) (t ∷ u ∷ l) (conditional true condition if_true if_false) = do
  let c = (strip condition true).0
  let polarity = (strip condition true).1
  found ←
      if bitwidth (lhs c) == 1 && not (has_dummy_bits (lhs c))
      then take_trigger (lhs c) (t ∷ u ∷ l)
      else none
  bit ← bit_at (lhs c) 0
  ff ← infer fuel found.1 if_false
  some (record ff {
    found_async = record { trigger = bit; polarity = polarity; body = if_true } ∷ ff.found_async;
    diags =
        (if is_edge_of polarity found.0.edge then [] else if_else_aload_polarity ∷ []) ++ ff.diags;
  })
infer (suc fuel) (t ∷ u ∷ l) stmt = none

-- `interpret_async_pattern`; `none` where it returns behind the diagnostic that no load is found.
unfoldable pub interpret_async_pattern : List SignalEvent → Statement → Option (Peeled × FlipFlop)
unfolding peel infer
interpret_async_pattern triggers body =
    let p = peel (ltb 1 (length triggers)) none [] body in
    elim (infer (length triggers) triggers p.stmt) [ none ↦ none | some ff ↦ some (p, ff) ]
