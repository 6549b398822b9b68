-- ===== src/Procedural/Defs.antt =====
-- src/procedural.cc: ProceduralContext. Source locations are left out; a case tree's current case is
-- given by its actions, and `wire` is the signal of a static variable's bit.
use yosys_slang.Base.{
  ℕ, suc, Bool, true, false, ◌||◌, Option, none, some, List, [], ◌∷◌, ◌++◌, if◌then◌else◌, ◌==◌,
  length, drop, take, replicate, log_assert, ◌>>=◌, ◌>>◌,
}
use yosys_slang.Rtlil.{
  SigBit, SigSpec, State, s0, s1, sx, state, is_state, is_fully_const, is_fully_ones,
}
use yosys_slang.Variables.{
  Symbol, Variable, static, local, escape_flag, dummy, invalid, VariableBit, VariableBits,
  VariableChunk, Span, bits, same_variable, bitwidth, unpack, chunk_spans, chunk_bits, of_variable,
}
use yosys_slang.Builder.Gates.{Cells, bwmux}
use yosys_slang.Cases.{Action}
use yosys_slang.State.{Map, VariableState, insert, set, evaluate}

pub data EscapeKind : Type 0 where
  loop loop_body function_body : EscapeKind

abbrev pub escape_number : EscapeKind → ℕ
escape_number loop = 0
escape_number loop_body = 1
escape_number function_body = 2

pub record EscapeFrame : Type 0 where
  pub flag : Variable
  pub subroutine : Option ℕ
  pub kind : EscapeKind

pub data Diag : Type 0 where
  blocking_after_nonblocking nonblocking_after_blocking : Variable → Diag
  nonblocking_in_initial nonconstant_initial_eval : Diag

pub record MemoryInit : Type 0 where
  pub symbol : Symbol
  pub bit_offset : ℕ
  pub data_bits : SigSpec

-- The frame that is entered last comes first in `escape_stack`.
pub record Process : Type 0 where
  pub initial : Bool
  pub vstate : VariableState
  pub actions : List Action
  pub seen_blocking : List Variable
  pub seen_nonblocking : List Variable
  pub initial_locals_state : Map
  pub initial_state : Map
  pub memory_inits : List MemoryInit
  pub diags : List Diag
  pub escape_stack : List EscapeFrame
  pub flag_counter : ℕ

unfoldable pub has_variable : Variable → List Variable → Bool
has_variable v [] = false
has_variable v (w ∷ l) = same_variable v w || has_variable v l

unfoldable pub add_variable : Variable → List Variable → List Variable
unfolding has_variable
add_variable v l = if has_variable v l then l else v ∷ l

-- `crop_zero_mask` and `crop_undef_mask`: without the bits where the mask is `s`. The source removes
-- them one at a time, the highest first.
unfoldable pub crop {ℓ} : {A : Type ℓ} → State → SigSpec → List A → List A
crop s (m ∷ mask) (a ∷ target) =
    let rest = crop s mask target in if is_state s m then rest else a ∷ rest
crop s _ target = target

-- The body of the loop over the chunks of the left-hand side; `blocking` may become true.
unfoldable pub check_chunk : Variable → Process × Bool → Option (Process × Bool)
unfolding has_variable add_variable
check_chunk (static s) (p, true) = some (
    if has_variable (static s) p.seen_nonblocking
    then (record p { diags = p.diags ++ (blocking_after_nonblocking (static s) ∷ []) }, true)
    else (record p { seen_blocking = add_variable (static s) p.seen_blocking }, true))
check_chunk (static s) (p, false) = some (
    if p.initial
    then (record p { diags = p.diags ++ (nonblocking_in_initial ∷ []) }, true)
    else if has_variable (static s) p.seen_blocking
    then (record p { diags = p.diags ++ (nonblocking_after_blocking (static s) ∷ []) }, false)
    else (record p { seen_nonblocking = add_variable (static s) p.seen_nonblocking }, false))
check_chunk (dummy n) r = some r
check_chunk v (p, blocking) = do log_assert blocking; some (p, blocking)

unfoldable pub check_chunks : List Span → Process × Bool → Option (Process × Bool)
unfolding check_chunk
check_chunks [] r = some r
check_chunks (s ∷ l) r = do q ← check_chunk s.chunk.variable r; check_chunks l q

unfoldable pub insert_all : List VariableBit → SigSpec → Map → Map
unfolding insert
insert_all (b ∷ l) (v ∷ values) m = insert_all l values (insert b v m)
insert_all _ _ m = m

module _ (is_inferred_memory : Symbol → Bool) where
  -- The body of the loop over `chunk_spans` in an initial process, by the chunk's variable.
  unfoldable pub assign_chunk : Variable → VariableChunk → SigSpec → Process → Process
  unfolding insert_all
  assign_chunk (dummy n) c values p = p
  assign_chunk invalid c values p = p
  assign_chunk (local sym depth) c values p = record p {
    initial_locals_state = insert_all (chunk_bits c) values p.initial_locals_state;
  }
  assign_chunk (escape_flag i) c values p = record p {
    initial_locals_state = insert_all (chunk_bits c) values p.initial_locals_state;
  }
  assign_chunk (static sym) c values p = record p {
    initial_state = insert_all (chunk_bits c) values p.initial_state;
    memory_inits =
        if is_inferred_memory sym
        then p.memory_inits
          ++ (record { symbol = sym; bit_offset = c.base; data_bits = values } ∷ [])
        else p.memory_inits;
  }

  unfoldable pub assign_spans : SigSpec → List Span → Process → Process
  unfolding assign_chunk
  assign_spans rvalue [] p = p
  assign_spans rvalue (s ∷ l) p =
      assign_spans rvalue l
        (assign_chunk s.chunk.variable s.chunk (take s.chunk.length (drop s.start rvalue)) p)

  -- The part of `update_variable_state` for an initial process.
  unfoldable pub update_initial : List VariableBit → SigSpec → SigSpec → Process → Process
  unfolding assign_spans crop chunk_spans
  update_initial lvalue rvalue mask p =
      let l = crop sx mask lvalue in
      let r = crop sx mask rvalue in
      if is_fully_const r
      then assign_spans r (chunk_spans (bits l)) p
      else record p { diags = p.diags ++ (nonconstant_initial_eval ∷ []) }

  module _ (cells : Cells) (wire : Symbol → ℕ → SigBit) where
    -- The value that is set: merged with the value before where the mask is not full.
    unfoldable pub masked_value : VariableBits → SigSpec → SigSpec → Process → Option SigSpec
    unfolding evaluate bwmux
    masked_value lvalue rvalue mask p =
        if is_fully_ones mask
        then some rvalue
        else (do background ← evaluate wire p.vstate lvalue; bwmux cells background rvalue mask)

    -- The part of `update_variable_state` for the other processes.
    unfoldable pub update_values : VariableBits → SigSpec → SigSpec → Process → Option Process
    unfolding set masked_value
    update_values lvalue rvalue mask p = do
      value ← masked_value lvalue rvalue mask p
      v ← set p.vstate lvalue value
      some (record p {
        vstate = v;
        actions =
            p.actions ++ (record { lvalue = lvalue; mask = mask; unmasked_rvalue = rvalue } ∷ []);
      })

    unfoldable pub update_variable_state :
        VariableBits → SigSpec → SigSpec → Bool → Process → Option Process
    unfolding check_chunks update_initial update_values crop chunk_spans unpack bitwidth
    update_variable_state lvalue unmasked_rvalue mask blocking p = do
      log_assert (bitwidth lvalue == length unmasked_rvalue)
      log_assert (bitwidth lvalue == length mask)
      let l = crop s0 mask (unpack lvalue)
      let r = crop s0 mask unmasked_rvalue
      let m = crop s0 mask mask
      q ← check_chunks (chunk_spans (bits l)) (p, blocking)
      if p.initial then some (update_initial l r m q.0) else update_values (bits l) r m q.0

    unfoldable pub do_simple_assign : VariableBits → SigSpec → Bool → Process → Option Process
    unfolding update_variable_state
    do_simple_assign lvalue rvalue blocking p =
        update_variable_state lvalue rvalue (replicate (length rvalue) (state s1)) blocking p

    -- The constructors of RegisterEscapeConstructGuard, which clear the flag, and its destructor.
    unfoldable pub register_escape : EscapeKind → Option ℕ → Process → Option Process
    unfolding do_simple_assign of_variable
    register_escape kind subroutine p =
        let flag = escape_flag p.flag_counter in
        do_simple_assign (of_variable flag 1) (state s0 ∷ []) true (record p {
          flag_counter = suc p.flag_counter;
          escape_stack =
              record { flag = flag; subroutine = subroutine; kind = kind } ∷ p.escape_stack;
        })

    unfoldable pub signal_frames : EscapeKind → List EscapeFrame → Process → Option Process
    unfolding do_simple_assign of_variable
    signal_frames kind [] p = none
    signal_frames kind (f ∷ l) p = do
      q ← do_simple_assign (of_variable f.flag 1) (state s1 ∷ []) true p
      if escape_number f.kind == escape_number kind then some q else signal_frames kind l q

    -- `signal_escape`: the flags of the frames down to the first of the kind.
    unfoldable pub signal_escape : EscapeKind → Process → Option Process
    unfolding signal_frames
    signal_escape kind p = signal_frames kind p.escape_stack p

-- `get_disable_flag`.
unfoldable pub get_disable_flag : Process → Variable
get_disable_flag p = elim p.escape_stack [ [] ↦ invalid | f ∷ l ↦ f.flag ]

-- `get_current_subroutine`, over the frames from the last one on.
unfoldable pub current_subroutine : List EscapeFrame → Option (Option ℕ)
current_subroutine [] = none
current_subroutine (f ∷ l) =
    let rest = current_subroutine l in if escape_number f.kind == 2 then some f.subroutine else rest
