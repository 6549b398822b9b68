-- ===== src/Procedural/Steady.antt =====
-- src/procedural.cc, update_variable_state: what no assignment changes.
use yosys_slang.Base.{
  ℕ, ◌≡◌, refl, subst, ◌∙◌, Bool, true, false, Option, some, List, [], ◌∷◌, ◌++◌, if◌then◌else◌,
  ◌==◌, length, drop, take, replicate, log_assert, ◌>>=◌, >>=-some, some_inj, Bool-cases, inl, inr,
}
use yosys_slang.Rtlil.{SigBit, SigSpec, s0, s1, sx, state, is_fully_const}
use yosys_slang.Variables.{
  Symbol, Variable, static, local, escape_flag, dummy, invalid, VariableBit, VariableBits,
  VariableChunk, Span, bits, bitwidth, unpack, chunk_spans,
}
use yosys_slang.Builder.Gates.{Cells}
use yosys_slang.State.{VariableState, set}
use yosys_slang.Procedural.Defs.{
  Process, has_variable, crop, check_chunk, check_chunks, assign_chunk, assign_spans,
  update_initial, masked_value, update_values, update_variable_state, do_simple_assign,
}

-- The escapes, the flags in use and the kind of the process stay; in an initial process so do the values
-- and the actions.
pub record IsSteady (p q : Process) : Type 0 where
  pub escapes : q.escape_stack ≡ p.escape_stack
  pub flags : q.flag_counter ≡ p.flag_counter
  pub same_kind : q.initial ≡ p.initial
  pub values : p.initial ≡ true → q.vstate ≡ p.vstate
  pub same_actions : p.initial ≡ true → q.actions ≡ p.actions

pub IsSteady-refl : (p : Process) → IsSteady p p
IsSteady-refl p = record {
  escapes = refl;
  flags = refl;
  same_kind = refl;
  values = λ _. refl;
  same_actions = λ _. refl;
}

pub IsSteady-trans : (p q r : Process) → IsSteady p q → IsSteady q r → IsSteady p r
IsSteady-trans p q r h k = record {
  escapes = k.escapes ∙ h.escapes;
  flags = k.flags ∙ h.flags;
  same_kind = k.same_kind ∙ h.same_kind;
  values = λ e. k.values (h.same_kind ∙ e) ∙ h.values e;
  same_actions = λ e. k.same_actions (h.same_kind ∙ e) ∙ h.same_actions e;
}

if_IsSteady :
    (p : Process) (b : Bool) (x y : Process × Bool)
    → IsSteady p x.0
    → IsSteady p y.0
    → IsSteady p (if b then x else y).0
if_IsSteady p true x y h k = h
if_IsSteady p false x y h k = k

check_chunk-IsSteady :
    (v : Variable) (r q : Process × Bool) → check_chunk v r ≡ some q → IsSteady r.0 q.0
unfolding check_chunk
check_chunk-IsSteady (static s) (p, true) q e =
    subst (λ x. IsSteady p x.0) (some_inj _ q e)
      (if_IsSteady p (has_variable (static s) p.seen_nonblocking) _ _
        (record {
          escapes = refl;
          flags = refl;
          same_kind = refl;
          values = λ _. refl;
          same_actions = λ _. refl;
        })
        (record {
          escapes = refl;
          flags = refl;
          same_kind = refl;
          values = λ _. refl;
          same_actions = λ _. refl;
        }))
check_chunk-IsSteady (static s) (p, false) q e =
    subst (λ x. IsSteady p x.0) (some_inj _ q e)
      (if_IsSteady p p.initial _ _
        (record {
          escapes = refl;
          flags = refl;
          same_kind = refl;
          values = λ _. refl;
          same_actions = λ _. refl;
        })
        (if_IsSteady p (has_variable (static s) p.seen_blocking) _ _
          (record {
            escapes = refl;
            flags = refl;
            same_kind = refl;
            values = λ _. refl;
            same_actions = λ _. refl;
          })
          (record {
            escapes = refl;
            flags = refl;
            same_kind = refl;
            values = λ _. refl;
            same_actions = λ _. refl;
          })))
check_chunk-IsSteady (dummy n) r q e =
    subst (λ x. IsSteady r.0 x.0) (some_inj r q e) (IsSteady-refl r.0)
check_chunk-IsSteady (local s d) (p, true) q e =
    subst (λ x. IsSteady p x.0) (some_inj _ q e) (IsSteady-refl p)
check_chunk-IsSteady (local s d) (p, false) q e = cc
check_chunk-IsSteady (escape_flag i) (p, true) q e =
    subst (λ x. IsSteady p x.0) (some_inj _ q e) (IsSteady-refl p)
check_chunk-IsSteady (escape_flag i) (p, false) q e = cc
check_chunk-IsSteady invalid (p, true) q e =
    subst (λ x. IsSteady p x.0) (some_inj _ q e) (IsSteady-refl p)
check_chunk-IsSteady invalid (p, false) q e = cc

check_chunks-IsSteady :
    (l : List Span) (r q : Process × Bool) → check_chunks l r ≡ some q → IsSteady r.0 q.0
unfolding check_chunks
check_chunks-IsSteady [] r q e = subst (λ x. IsSteady r.0 x.0) (some_inj r q e) (IsSteady-refl r.0)
check_chunks-IsSteady (s ∷ l) r q e =
    let (u, f, g) = >>=-some (check_chunk s.chunk.variable r) (check_chunks l) q e in
    IsSteady-trans r.0 u.0 q.0 (check_chunk-IsSteady s.chunk.variable r u f)
      (check_chunks-IsSteady l u q g)

module _ (is_inferred_memory : Symbol → Bool) where
  assign_chunk-IsSteady :
      (v : Variable) (c : VariableChunk) (r : SigSpec) (p : Process)
      → IsSteady p (assign_chunk is_inferred_memory v c r p)
  unfolding assign_chunk
  assign_chunk-IsSteady (static t) c r p = record {
    escapes = refl;
    flags = refl;
    same_kind = refl;
    values = λ _. refl;
    same_actions = λ _. refl;
  }
  assign_chunk-IsSteady (local t d) c r p = record {
    escapes = refl;
    flags = refl;
    same_kind = refl;
    values = λ _. refl;
    same_actions = λ _. refl;
  }
  assign_chunk-IsSteady (escape_flag i) c r p = record {
    escapes = refl;
    flags = refl;
    same_kind = refl;
    values = λ _. refl;
    same_actions = λ _. refl;
  }
  assign_chunk-IsSteady (dummy n) c r p = IsSteady-refl p
  assign_chunk-IsSteady invalid c r p = IsSteady-refl p

  assign_spans-IsSteady :
      (r : SigSpec) (l : List Span) (p : Process)
      → IsSteady p (assign_spans is_inferred_memory r l p)
  unfolding assign_spans
  assign_spans-IsSteady r [] p = IsSteady-refl p
  assign_spans-IsSteady r (s ∷ l) p =
      IsSteady-trans p _ _
        (assign_chunk-IsSteady s.chunk.variable s.chunk (take s.chunk.length (drop s.start r)) p)
        (assign_spans-IsSteady r l _)

  update_initial-IsSteady :
      (l : List VariableBit) (r m : SigSpec) (p : Process)
      → IsSteady p (update_initial is_inferred_memory l r m p)
  unfolding update_initial
  update_initial-IsSteady l r m p = elim (Bool-cases (is_fully_const (crop sx m r))) [
    | inl e ↦
        rw (update_initial, e)
          (assign_spans-IsSteady (crop sx m r) (chunk_spans (bits (crop sx m l))) p)
    | inr e ↦
        rw (update_initial, e)
          (record {
            escapes = refl;
            flags = refl;
            same_kind = refl;
            values = λ _. refl;
            same_actions = λ _. refl;
          })
  ]

  module _ (cells : Cells) (wire : Symbol → ℕ → SigBit) where
    abbrev updated : VariableBits → SigSpec → SigSpec → Process → VariableState → Process
    updated l r m p v = record p {
      vstate = v;
      actions = p.actions ++ (record { lvalue = l; mask = m; unmasked_rvalue = r } ∷ []);
    }

    not_initial : (b : Bool) → b ≡ false → b ≡ true → ⊥
    not_initial b h k = cc

    update_values-IsSteady :
        (l : VariableBits) (r m : SigSpec) (p q : Process)
        → p.initial ≡ false
        → update_values is_inferred_memory cells wire l r m p ≡ some q
        → IsSteady p q
    unfolding update_values
    update_values-IsSteady l r m p q i e =
        let (x, f, g) =
          >>=-some (masked_value is_inferred_memory cells wire l r m p)
            (λ value. set p.vstate l value >>= λ v. some (updated l r m p v)) q e in
        let (v, h, k) = >>=-some (set p.vstate l x) (λ v. some (updated l r m p v)) q g in
        subst (IsSteady p) (some_inj (updated l r m p v) q k) (record {
          escapes = refl;
          flags = refl;
          same_kind = refl;
          values = λ t. absurd (not_initial _ i t);
          same_actions = λ t. absurd (not_initial _ i t);
        })

    last_step :
        (l : List VariableBit) (r m : SigSpec) (initial : Bool) (p q : Process)
        → p.initial ≡ initial
        → (if initial
            then some (update_initial is_inferred_memory l r m p)
            else update_values is_inferred_memory cells wire (bits l) r m p)
          ≡ some q
        → IsSteady p q
    last_step l r m true p q i e =
        subst (IsSteady p) (some_inj (update_initial is_inferred_memory l r m p) q e)
          (update_initial-IsSteady l r m p)
    last_step l r m false p q i e = update_values-IsSteady (bits l) r m p q i e

    pub update_variable_state-IsSteady :
        (l : VariableBits) (r m : SigSpec) (blocking : Bool) (p q : Process)
        → update_variable_state is_inferred_memory cells wire l r m blocking p ≡ some q
        → IsSteady p q
    unfolding update_variable_state
    update_variable_state-IsSteady l r m blocking p q e =
        let cl = crop s0 m (unpack l) in
        let cr = crop s0 m r in
        let cm = crop s0 m m in
        let last : Process × Bool → Option Process = λ u.
          if p.initial
          then some (update_initial is_inferred_memory cl cr cm u.0)
          else update_values is_inferred_memory cells wire (bits cl) cr cm u.0 in
        let checked : Option Process =
          check_chunks (chunk_spans (bits cl)) (p, blocking) >>= last in
        let (x, a, e1) =
          >>=-some (log_assert (bitwidth l == length r))
            (λ z. log_assert (bitwidth l == length m) >>= λ w. checked) q e in
        let (y, b, e2) = >>=-some (log_assert (bitwidth l == length m)) (λ w. checked) q e1 in
        let (u, c, e3) = >>=-some (check_chunks (chunk_spans (bits cl)) (p, blocking)) last q e2 in
        let s = check_chunks-IsSteady (chunk_spans (bits cl)) (p, blocking) u c in
        IsSteady-trans p u.0 q s (last_step cl cr cm p.initial u.0 q s.same_kind e3)

    pub do_simple_assign-IsSteady :
        (l : VariableBits) (r : SigSpec) (blocking : Bool) (p q : Process)
        → do_simple_assign is_inferred_memory cells wire l r blocking p ≡ some q
        → IsSteady p q
    unfolding do_simple_assign
    do_simple_assign-IsSteady l r blocking p q e =
        update_variable_state-IsSteady l r (replicate (length r) (state s1)) blocking p q e
