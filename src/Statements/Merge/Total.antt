-- ===== src/Statements/Merge/Total.antt =====
-- src/statements.h, SwitchHelper::finish: no assertion fails.
use yosys_slang.Base.{
  ℕ, zero, suc, ◌≡◌, refl, sym, ap, ◌∙◌, Bool, true, false, ◌&&◌, not, none, some, List, [], ◌∷◌,
  ◌++◌, arith, Bool-cases, Option-cases, inl, inr, get_elem?, length, ◌+◌, ◌-◌, ◌==◌,
}
use yosys_slang.Rtlil.{SigBit, SigSpec, wire_bit, cut}
use yosys_slang.Cases.{SigSig}
use yosys_slang.Variables.{
  static, local, escape_flag, dummy, invalid, Symbol, Variable, VariableBit, VariableChunk, Span,
  chunk_spans, chunk_bits, unpack, expand, bitwidth, same_bit,
}
use yosys_slang.Variables.Chunks.{span_bits, chunk_spans_lem}
use yosys_slang.Variables.Sorting.{contains}
use yosys_slang.Variables.Views.{same_variable_iff, same_bit_iff}
use yosys_slang.State.{
  Map, VariableState, lookup, set, set_bits, values_at, wire_of, evaluate_chunk, evaluate_chunk_bit,
  evaluate_chunk_list,
}
use yosys_slang.Procedural.{has_variable}
use yosys_slang.Procedural.Discipline.{has_variable-add_variable}
use yosys_slang.Statements.Merge.Defs.{
  Merge, Merged, Updates, wire_bits, is_static, has_value, end_of_scope, none_has_value, merge_live,
  merge_chunk, merge_chunks, branch_actions, all_branch_actions, updated_anybranch, eos_variables,
  finish_values,
}
use yosys_slang.Statements.Merge.Steps.{
  length-wire_bits, Placed, merge_live_lem, merge_chunks-Steps, contains-expand,
}
use yosys_slang.Statements.Merge.Actions.{updated_bit}
use yosys_slang.Statements.Merge.Wires.{
  Steps-covered, same_lookup, lookup-evaluate, contains-append,
}

not_both : (b : Bool) → b ≡ true → b ≡ false → ⊥
not_both b h k = cc

has_value_lem : (m : Map) (b : VariableBit) → lookup b m ≡ none → has_value m b ≡ false
has_value_lem m b e = ground arith

-- A variable without a value, which is not static, goes out of scope.
end_of_scope_first :
    (va : Map) (l : List VariableBit) (b : VariableBit)
    → lookup b va ≡ none
    → is_static b.variable ≡ false
    → has_variable b.variable (end_of_scope va (b ∷ l)) ≡ true
unfolding end_of_scope
end_of_scope_first va l b e i =
    rw (i, has_value_lem va b e)
      (has_variable-add_variable b.variable b.variable (end_of_scope va l)
        ∙ (ground (arith, same_variable_iff b.variable b.variable)))

-- A bit of a variable that does not go out of scope has a value, if the variable is not static.
end_of_scope_lem :
    (va : Map) (l : List VariableBit) (b : VariableBit)
    → contains b l ≡ true
    → has_variable b.variable (end_of_scope va l) ≡ false
    → is_static b.variable ≡ false
    → (y : SigBit) × (lookup b va ≡ some y)
unfolding end_of_scope
end_of_scope_lem va [] b h o i = cc
end_of_scope_lem va (d ∷ l) b h o i = elim (Option-cases (lookup b va)) [
  | inr r ↦ r
  | inl e ↦ elim (Bool-cases (same_bit b d)) [
    | inl c ↦
        let q =
          ap (λ k. has_variable b.variable (end_of_scope va (k ∷ l))) ((same_bit_iff b d).0 c) in
        absurd (not_both _ (sym q ∙ end_of_scope_first va l b e i) o)
    | inr c ↦
        end_of_scope_lem va l b (ground arith)
          (ground (arith, has_variable-add_variable b.variable d.variable (end_of_scope va l))) i
  ]
]

module _ (wire : Symbol → ℕ → SigBit) where
  evaluate_static :
      (s : VariableState) (v : Variable) (o : ℕ)
      → is_static v ≡ true
      → (y : SigBit) × (evaluate_chunk_bit wire s (record { variable = v; offset = o }) ≡ some y)
  unfolding evaluate_chunk_bit wire_of
  evaluate_static s (static i) o h =
      elim (Option-cases
        (lookup (record { variable = static i; offset = o }) s.visible_assignments)) [
          | inr (y, e) ↦ (y, lookup-evaluate wire s _ y e)
          | inl e ↦ (wire i o, rw (evaluate_chunk_bit, e) refl)
        ]
  evaluate_static s (local i d) o h = cc
  evaluate_static s (escape_flag i) o h = cc
  evaluate_static s (dummy n) o h = cc
  evaluate_static s invalid o h = cc

  evaluate_chunk_list-total :
      (s : VariableState) (v : Variable) (base n : ℕ)
      → ((b : VariableBit)
          → contains b (expand v base n) ≡ true
          → (y : SigBit) × (evaluate_chunk_bit wire s b ≡ some y))
      → (d : SigSpec) × (evaluate_chunk_list wire s (expand v base n) ≡ some d)
  unfolding evaluate_chunk_list expand
  evaluate_chunk_list-total s v base zero h = ([], refl)
  evaluate_chunk_list-total s v base (suc n) h =
      let b0 : VariableBit = record { variable = v; offset = base } in
      let (y, e) = h b0 (ground (arith, same_bit_iff b0 b0)) in
      let (d, f) = evaluate_chunk_list-total s v (base + 1) n (λ b k. h b (ground arith)) in
      (y ∷ d, rw (e, f) refl)

  merge_live-total :
      (c : VariableChunk) (m : Merge)
      → ((b : VariableBit)
          → contains b (chunk_bits c) ≡ true
          → (y : SigBit) × (evaluate_chunk_bit wire m.vstate b ≡ some y))
      → (n : Merge) × (merge_live wire c m ≡ some n)
  unfolding merge_live set evaluate_chunk bitwidth unpack
  merge_live-total c m h =
      let (d, e) = evaluate_chunk_list-total m.vstate c.variable c.base c.length h in
      let w = wire_bits m.next_wire 0 c.length in
      let l : (c.length == length w) ≡ true =
        ground (arith, length-wire_bits m.next_wire 0 c.length) in
      (
        record {
          vstate = set_bits m.vstate (chunk_bits c) w;
          next_wire = suc m.next_wire;
          defaults = m.defaults ++ ((w, d) ∷ []);
        },
        rw (e, l) refl,
      )

  module _ (eos : List Variable) where
    abbrev is_out : VariableBit → Bool
    is_out b = not (is_static b.variable) && has_variable b.variable eos

    -- Of the bits of `k`, those of variables that are out of scope have no value, and the others can be evaluated.
    record Scoped (k : List VariableBit) (s : VariableState) : Type 0 where
      out :
          (b : VariableBit)
          → contains b k ≡ true
          → is_out b ≡ true
          → lookup b s.visible_assignments ≡ none
      live_bit :
          (b : VariableBit)
          → contains b k ≡ true
          → is_out b ≡ false
          → (y : SigBit) × (evaluate_chunk_bit wire s b ≡ some y)

    none_has_value-total :
        (m : Map) (l : List VariableBit)
        → ((b : VariableBit) → contains b l ≡ true → lookup b m ≡ none)
        → none_has_value m l ≡ true
    unfolding none_has_value
    none_has_value-total m [] h = refl
    none_has_value-total m (b ∷ l) h =
        let e = h b (ground (arith, same_bit_iff b b)) in
        rw (has_value_lem m b e) (none_has_value-total m l (λ d k. h d (ground arith)))

    Placed-Scoped :
        (k : List VariableBit) (c : VariableChunk) (m n : Merge)
        → Placed wire c m n
        → (not (is_static c.variable) && has_variable c.variable eos) ≡ false
        → Scoped k m.vstate
        → Scoped k n.vstate
    Placed-Scoped k c m n p o q = record {
      out = λ b h e. elim (Bool-cases (contains b (chunk_bits c))) [
        | inl i ↦ absurd (
            not_both _
              (sym (
                  ap (λ v. not (is_static v) && has_variable v eos)
                    (contains-expand b c.variable c.base c.length i).0)
                ∙ e)
              o)
        | inr i ↦ p.values b ∙ (rw i (q.out b h e))
      ];
      live_bit = λ b h e. elim (Bool-cases (contains b (chunk_bits c))) [
        | inl i ↦ (
          wire_bit m.next_wire (0 + (b.offset - c.base)),
          lookup-evaluate wire n.vstate b _ (p.values b ∙ (rw i refl)),
        )
        | inr i ↦
            let (y, f) = q.live_bit b h e in
            (y, same_lookup wire m.vstate n.vstate b (p.values b ∙ (rw i refl)) ∙ f)
      ];
    }

    merge_chunk-total :
        (k : List VariableBit) (c : VariableChunk) (m : Merge)
        → ((b : VariableBit) → contains b (chunk_bits c) ≡ true → contains b k ≡ true)
        → Scoped k m.vstate
        → (n : Merge) × (merge_chunk wire eos c m ≡ some n) × Scoped k n.vstate
    unfolding merge_chunk
    merge_chunk-total k c m h q =
        elim (Bool-cases (not (is_static c.variable) && has_variable c.variable eos)) [
          | inl e ↦ (
            m,
            rw
                (
                  e,
                  none_has_value-total m.vstate.visible_assignments (chunk_bits c) (λ b i.
                      q.out b (h b i) (
                        ap (λ v. not (is_static v) && has_variable v eos)
                          (contains-expand b c.variable c.base c.length i).0
                        ∙ e)),
                )
                refl,
            q,
          )
          | inr e ↦
              let (n, f) = merge_live-total c m (λ b i. q.live_bit b (h b i) (
                ap (λ v. not (is_static v) && has_variable v eos)
                  (contains-expand b c.variable c.base c.length i).0
                ∙ e)) in
              (n, rw e f, Placed-Scoped k c m n (merge_live_lem wire c m n f) e q)
        ]

    merge_chunks-total :
        (k : List VariableBit) (l : List Span) (m : Merge)
        → ((b : VariableBit) → contains b (span_bits l) ≡ true → contains b k ≡ true)
        → Scoped k m.vstate
        → (n : Merge) × (merge_chunks wire eos l m ≡ some n)
    unfolding merge_chunks
    merge_chunks-total k [] m h q = (m, refl)
    merge_chunks-total k (s ∷ l) m h q =
        let (n, e, r) =
          merge_chunk-total k s.chunk m
            (λ b i. h b (contains-append b (chunk_bits s.chunk) (span_bits l) ∙ (ground arith)))
            q in
        let (o, f) =
          merge_chunks-total k l n
            (λ b i. h b (contains-append b (chunk_bits s.chunk) (span_bits l) ∙ (ground arith)))
            r in
        (o, rw e f)

values_at-total :
    (m : Map) (l : List VariableBit)
    → ((b : VariableBit) → contains b l ≡ true → (y : SigBit) × (lookup b m ≡ some y))
    → (r : SigSpec) × (values_at m l ≡ some r)
unfolding values_at
values_at-total m [] h = ([], refl)
values_at-total m (b ∷ l) h =
    let (y, e) = h b (ground (arith, same_bit_iff b b)) in
    let (r, f) = values_at-total m l (λ d k. h d (ground arith)) in (y ∷ r, rw (e, f) refl)

branch_actions-total :
    (eos : List Variable) (va : Map) (source : SigSpec) (done : ℕ) (l : List Span)
    → ((b : VariableBit)
        → contains b (span_bits l) ≡ true
        → has_variable b.variable eos ≡ false
        → (y : SigBit) × (lookup b va ≡ some y))
    → (a : List SigSig) × (branch_actions eos va source done l ≡ some a)
unfolding branch_actions
branch_actions-total eos va source done [] h = ([], refl)
branch_actions-total eos va source done (s ∷ l) h =
    let (a, e) =
      branch_actions-total eos va source (done + s.chunk.length) l
        (λ b i. h b (contains-append b (chunk_bits s.chunk) (span_bits l) ∙ (ground arith))) in
    elim (Bool-cases (has_variable s.chunk.variable eos)) [
      | inl c ↦ (a, rw c e)
      | inr c ↦
          let (w, f) = values_at-total va (chunk_bits s.chunk) (λ b i.
            h b (contains-append b (chunk_bits s.chunk) (span_bits l) ∙ (ground arith)) (
              ap (λ v. has_variable v eos)
                (contains-expand b s.chunk.variable s.chunk.base s.chunk.length i).0
              ∙ c)) in
          ((w, cut source done s.chunk.length) ∷ a, rw (c, f, e) refl)
    ]

&&_right : (b c : Bool) → (b && c) ≡ true → c ≡ true
&&_right b c h = ground arith

live_evaluates :
    (wire : Symbol → ℕ → SigBit) (rank : Symbol → ℕ) (s : VariableState) (l : List Updates)
    (b : VariableBit)
    → contains b (unpack (updated_anybranch rank l)) ≡ true
    → (not (is_static b.variable) && has_variable b.variable (eos_variables rank s l)) ≡ false
    → (y : SigBit) × (evaluate_chunk_bit wire s b ≡ some y)
unfolding eos_variables
live_evaluates wire rank s l b i e = elim (Bool-cases (is_static b.variable)) [
  | inl c ↦ evaluate_static wire s b.variable b.offset c
  | inr c ↦
      let (y, f) =
        end_of_scope_lem s.visible_assignments (unpack (updated_anybranch rank l)) b i
          (ground arith) c in
      (y, lookup-evaluate wire s b y f)
]

all_branch_actions-total :
    (eos : List Variable) (va : Map) (l : List Updates)
    → ((i : ℕ) (u : Updates) (b : VariableBit)
        → get_elem? l i ≡ some u
        → contains b (unpack u.0) ≡ true
        → has_variable b.variable eos ≡ false
        → (y : SigBit) × (lookup b va ≡ some y))
    → (a : List (List SigSig)) × (all_branch_actions eos va l ≡ some a)
unfolding all_branch_actions
all_branch_actions-total eos va [] h = ([], refl)
all_branch_actions-total eos va ((target, source) ∷ l) h =
    let (a, e) =
      branch_actions-total eos va source 0 (chunk_spans target) (λ b i.
        h 0 (target, source) b refl (sym (ap (contains b) (chunk_spans_lem target).0) ∙ i)) in
    let (r, f) = all_branch_actions-total eos va l (λ i u b. h (suc i) u b) in
    (a ∷ r, rw (e, f) refl)

-- Leaving a switch fails no assertion, if no bit of a variable that goes out of scope with its branches has a
-- value any more.
pub finish_values-total :
    (wire : Symbol → ℕ → SigBit) (rank : Symbol → ℕ) (s : VariableState) (next : ℕ)
    (l : List Updates)
    → ((b : VariableBit)
        → has_variable b.variable (eos_variables rank s l) ≡ true
        → lookup b s.visible_assignments ≡ none)
    → (r : Merged) × (finish_values wire rank s next l ≡ some r)
unfolding finish_values
finish_values-total wire rank s next l h =
    let updated = updated_anybranch rank l in
    let eos = eos_variables rank s l in
    let spans = (chunk_spans_lem updated).0 in
    let q : Scoped wire eos (unpack updated) s = record {
      out = λ b _ e. h b (&&_right (not (is_static b.variable)) _ e);
      live_bit = λ b i e. live_evaluates wire rank s l b i e;
    } in
    let (m, e) =
      merge_chunks-total wire eos (unpack updated) (chunk_spans updated)
        (record { vstate = s; next_wire = next; defaults = [] })
        (λ b i. sym (ap (contains b) spans) ∙ i) q in
    let (a, f) = all_branch_actions-total eos m.vstate.visible_assignments l (λ i u b g c o.
      let (k, j, _, p) =
        Steps-covered wire eos (chunk_spans updated) _ m
          (merge_chunks-Steps wire eos (chunk_spans updated)
            (record { vstate = s; next_wire = next; defaults = [] }) m e)
          b (updated_bit rank l i u.0 u.1 b g c) o in
      (wire_bit k j, p)) in
    (record { result = m; branches = a }, rw (e, f) refl)
