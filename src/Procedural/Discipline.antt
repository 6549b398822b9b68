-- ===== src/Procedural/Discipline.antt =====
-- src/procedural.cc: the variables that a process assigns by blocking and by nonblocking assignments.
use yosys_slang.Base.{
  some_inj, ℕ, ◌≡◌, refl, sym, subst, ◌∙◌, Bool, true, false, ◌&&◌, ◌||◌, Option, some, List, [],
  ◌∷◌, ◌++◌, if◌then◌else◌, Bool-cases, inl, inr, arith, >>=-some, ◌>>=◌, log_assert, ◌==◌, length,
  take, drop,
}
use yosys_slang.Rtlil.{SigBit, SigSpec, s0, sx, is_fully_const}
use yosys_slang.Variables.{
  Symbol, Variable, static, local, escape_flag, dummy, invalid, VariableBit, VariableBits,
  VariableChunk, unpack, Span, bits, same_variable, chunk_spans, bitwidth,
}
use yosys_slang.Variables.Views.{same_variable_iff}
use yosys_slang.Builder.Gates.{Cells}
use yosys_slang.State.{VariableState, set}
use yosys_slang.Procedural.Defs.{
  Process, has_variable, add_variable, crop, check_chunk, check_chunks, assign_chunk, assign_spans,
  update_initial, masked_value, update_values, update_variable_state,
}

-- No variable is seen in both kinds of assignment.
abbrev pub IsDisjoint : Process → Type 0
IsDisjoint p =
    (v : Variable) → (has_variable v p.seen_blocking && has_variable v p.seen_nonblocking) ≡ false

-- Both have the same variables seen.
abbrev HasSameSeen : Process → Process → Type 0
HasSameSeen p q = (p.seen_blocking ≡ q.seen_blocking) × (p.seen_nonblocking ≡ q.seen_nonblocking)

IsDisjoint-HasSameSeen : (p q : Process) → HasSameSeen p q → IsDisjoint p → IsDisjoint q
IsDisjoint-HasSameSeen p q e h v = rw (sym e.0, sym e.1) (h v)

pub has_variable-add_variable :
    (v w : Variable) (l : List Variable)
    → has_variable v (add_variable w l) ≡ (same_variable v w || has_variable v l)
unfolding has_variable add_variable
has_variable-add_variable v w l = elim (Bool-cases (has_variable w l)) [
  | inr e ↦ rw e refl
  | inl e ↦ elim (Bool-cases (same_variable v w)) [
    | inl f ↦ rw (e, f, (same_variable_iff v w).0 f) e
    | inr f ↦ rw (e, f) refl
  ]
]

joined :
    (v w : Variable) (l r : List Variable)
    → has_variable w r ≡ false
    → (has_variable v l && has_variable v r) ≡ false
    → (has_variable v (add_variable w l) && has_variable v r) ≡ false
joined v w l r n h = rw (has_variable-add_variable v w l) (elim (Bool-cases (same_variable v w)) [
  | inl f ↦ rw (f, (same_variable_iff v w).0 f) n
  | inr f ↦ rw f h
])

swapped : (a b : Bool) → (a && b) ≡ false → (b && a) ≡ false
swapped a b e = ground arith

check_chunk-IsDisjoint :
    (v : Variable) (r q : Process × Bool)
    → check_chunk v r ≡ some q
    → IsDisjoint r.0
    → IsDisjoint q.0
unfolding check_chunk
check_chunk-IsDisjoint (static s) (p, true) q e h =
    elim (Bool-cases (has_variable (static s) p.seen_nonblocking)) [
      | inl f ↦ subst (λ x. IsDisjoint x.0) (some_inj _ q (rw f at e)) h
      | inr f ↦
          subst (λ x. IsDisjoint x.0) (some_inj _ q (rw f at e))
            (λ v. joined v (static s) p.seen_blocking p.seen_nonblocking f (h v))
    ]
check_chunk-IsDisjoint (static s) (p, false) q e h = elim (Bool-cases p.initial) [
  | inl f ↦ subst (λ x. IsDisjoint x.0) (some_inj _ q (rw f at e)) h
  | inr f ↦ elim (Bool-cases (has_variable (static s) p.seen_blocking)) [
    | inl g ↦ subst (λ x. IsDisjoint x.0) (some_inj _ q (rw (f, g) at e)) h
    | inr g ↦
        subst (λ x. IsDisjoint x.0) (some_inj _ q (rw (f, g) at e))
          (λ v.
            swapped (has_variable v (add_variable (static s) p.seen_nonblocking))
              (has_variable v p.seen_blocking)
              (joined v (static s) p.seen_nonblocking p.seen_blocking g (
                swapped (has_variable v p.seen_blocking) (has_variable v p.seen_nonblocking)
                  (h v))))
  ]
]
check_chunk-IsDisjoint (dummy n) r q e h = subst (λ x. IsDisjoint x.0) (some_inj _ q e) h
check_chunk-IsDisjoint (local s d) (p, true) q e h = subst (λ x. IsDisjoint x.0) (some_inj _ q e) h
check_chunk-IsDisjoint (local s d) (p, false) q e h = cc
check_chunk-IsDisjoint (escape_flag i) (p, true) q e h =
    subst (λ x. IsDisjoint x.0) (some_inj _ q e) h
check_chunk-IsDisjoint (escape_flag i) (p, false) q e h = cc
check_chunk-IsDisjoint invalid (p, true) q e h = subst (λ x. IsDisjoint x.0) (some_inj _ q e) h
check_chunk-IsDisjoint invalid (p, false) q e h = cc

check_chunks-IsDisjoint :
    (l : List Span) (r q : Process × Bool)
    → check_chunks l r ≡ some q
    → IsDisjoint r.0
    → IsDisjoint q.0
unfolding check_chunks
check_chunks-IsDisjoint [] r q e h = subst (λ x. IsDisjoint x.0) (some_inj _ q e) h
check_chunks-IsDisjoint (s ∷ l) r q e h =
    let (u, f, g) = >>=-some (check_chunk s.chunk.variable r) (check_chunks l) q e in
    check_chunks-IsDisjoint l u q g (check_chunk-IsDisjoint s.chunk.variable r u f h)

module _ (is_inferred_memory : Symbol → Bool) where
  assign_chunk-HasSameSeen :
      (v : Variable) (c : VariableChunk) (r : SigSpec) (p : Process)
      → HasSameSeen p (assign_chunk is_inferred_memory v c r p)
  unfolding assign_chunk
  assign_chunk-HasSameSeen (static t) c r p = (refl, refl)
  assign_chunk-HasSameSeen (local t d) c r p = (refl, refl)
  assign_chunk-HasSameSeen (escape_flag i) c r p = (refl, refl)
  assign_chunk-HasSameSeen (dummy n) c r p = (refl, refl)
  assign_chunk-HasSameSeen invalid c r p = (refl, refl)

  assign_spans-HasSameSeen :
      (r : SigSpec) (l : List Span) (p : Process)
      → HasSameSeen p (assign_spans is_inferred_memory r l p)
  unfolding assign_spans
  assign_spans-HasSameSeen r [] p = (refl, refl)
  assign_spans-HasSameSeen r (s ∷ l) p =
      let (a, b) =
        assign_chunk-HasSameSeen s.chunk.variable s.chunk (take s.chunk.length (drop s.start r))
          p in
      let (c, d) = assign_spans-HasSameSeen r l _ in (a ∙ c, b ∙ d)

  update_initial-HasSameSeen :
      (l : List VariableBit) (r m : SigSpec) (p : Process)
      → HasSameSeen p (update_initial is_inferred_memory l r m p)
  unfolding update_initial
  update_initial-HasSameSeen l r m p = elim (Bool-cases (is_fully_const (crop sx m r))) [
    | inl e ↦
        rw (update_initial, e)
          (assign_spans-HasSameSeen (crop sx m r) (chunk_spans (bits (crop sx m l))) p)
    | inr e ↦ rw (update_initial, e) (refl, refl)
  ]

  module _ (cells : Cells) (wire : Symbol → ℕ → SigBit) where
    abbrev updated : VariableBits → SigSpec → SigSpec → Process → VariableState → Process
    updated l r m p v = record p {
      vstate = v;
      actions = p.actions ++ (record { lvalue = l; mask = m; unmasked_rvalue = r } ∷ []);
    }

    update_values-HasSameSeen :
        (l : VariableBits) (r m : SigSpec) (p q : Process)
        → update_values is_inferred_memory cells wire l r m p ≡ some q
        → HasSameSeen p q
    unfolding update_values
    update_values-HasSameSeen l r m p q e =
        let (x, f, g) =
          >>=-some (masked_value is_inferred_memory cells wire l r m p)
            (λ value. set p.vstate l value >>= λ v. some (updated l r m p v)) q e in
        let (v, h, k) = >>=-some (set p.vstate l x) (λ v. some (updated l r m p v)) q g in
        subst (HasSameSeen p) (some_inj (updated l r m p v) q k) (refl, refl)

    last_step :
        (l : List VariableBit) (r m : SigSpec) (initial : Bool) (p q : Process)
        → (if initial
            then some (update_initial is_inferred_memory l r m p)
            else update_values is_inferred_memory cells wire (bits l) r m p)
          ≡ some q
        → HasSameSeen p q
    last_step l r m true p q e =
        subst (HasSameSeen p) (some_inj (update_initial is_inferred_memory l r m p) q e)
          (update_initial-HasSameSeen l r m p)
    last_step l r m false p q e = update_values-HasSameSeen (bits l) r m p q e

    -- No assignment makes a process see a variable both in blocking and in nonblocking assignments, if it
    -- did not before; this holds of the assignments that report an error as well.
    pub update_variable_state-IsDisjoint :
        (l : VariableBits) (r m : SigSpec) (blocking : Bool) (p q : Process)
        → IsDisjoint p
        → update_variable_state is_inferred_memory cells wire l r m blocking p ≡ some q
        → IsDisjoint q
    unfolding update_variable_state
    update_variable_state-IsDisjoint l r m blocking p q h e =
        let cl = crop s0 m (unpack l) in
        let cr = crop s0 m r in
        let cm = crop s0 m m in
        let last : Process × Bool → Option Process = λ u.
          if p.initial
          then some (update_initial is_inferred_memory cl cr cm u.0)
          else update_values is_inferred_memory cells wire (bits cl) cr cm u.0 in
        let checked : Option Process =
          check_chunks (chunk_spans (bits cl)) (p, blocking) >>= last in
        let (x, a, e1) =
          >>=-some (log_assert (bitwidth l == length r))
            (λ z. log_assert (bitwidth l == length m) >>= λ w. checked) q e in
        let (y, b, e2) = >>=-some (log_assert (bitwidth l == length m)) (λ w. checked) q e1 in
        let (u, c, e3) = >>=-some (check_chunks (chunk_spans (bits cl)) (p, blocking)) last q e2 in
        IsDisjoint-HasSameSeen u.0 q (last_step cl cr cm p.initial u.0 q e3)
          (check_chunks-IsDisjoint (chunk_spans (bits cl)) (p, blocking) u c h)
