-- ===== src/Statements/Merge/Actions.antt =====
-- src/statements.h, SwitchHelper::finish: the actions that each branch is given.
use yosys_slang.Base.{
  ℕ, zero, suc, ◌+◌, ◌≡◌, refl, sym, ap, subst, ◌∙◌, true, false, some, List, [], ◌∷◌, ◌++◌, arith,
  Bool-cases, inl, inr, some_inj, ◌>>=◌, >>=-some, All, All-append, take, drop, length, get_elem?,
  drop-drop, if_true, if_false,
}
use yosys_slang.Rtlil.{SigBit, SigSpec, cut, same_sigbit_iff}
use yosys_slang.Cases.{SigSig}
use yosys_slang.Variables.{
  empty_bits, Symbol, Variable, VariableBit, VariableBits, VariableChunk, Span, append, chunk_bits,
  chunk_spans, unpack, same_bit,
}
use yosys_slang.Variables.Chunks.{chunk_spans_lem, span_bits}
use yosys_slang.Variables.Sorting.{contains-sort_and_unify, contains}
use yosys_slang.Variables.Views.{unpack-append, length-expand, same_bit_iff}
use yosys_slang.State.{Map, lookup, values_at}
use yosys_slang.Procedural.{has_variable}
use yosys_slang.Statements.Merge.Defs.{
  updated_anybranch, Updates, all_updated, all_branch_actions, branch_actions,
}
use yosys_slang.Statements.Merge.Nets.{flat, zip, drives, drives-append}
use yosys_slang.Statements.Merge.Steps.{contains-expand}
use yosys_slang.Statements.Merge.Wires.{contains-append, contains_tail, true_not_false}

-- An action of a branch: the net is that of a bit in scope that the branch updated, and its source the
-- bit's value at the branch's end.
abbrev pub IsUpdate : List Variable → List VariableBit → Map → Map → SigBit × SigBit → Type 0
IsUpdate eos l va vb p =
    (b : VariableBit) × (contains b l ≡ true)
    × (has_variable b.variable eos ≡ false)
    × (lookup b va ≡ some p.0)
    × (lookup b vb ≡ some p.1)

values_at-cons :
    (m : Map) (b : VariableBit) (l : List VariableBit) (r : SigSpec)
    → values_at m (b ∷ l) ≡ some r
    → (w : SigBit) × (t : SigSpec) × (lookup b m ≡ some w) × (values_at m l ≡ some t) × (r ≡ w ∷ t)
unfolding values_at
values_at-cons m b l r e =
    let (w, p, q) = >>=-some (lookup b m) (λ v. do rest ← values_at m l; some (v ∷ rest)) r e in
    let (t, p', q') = >>=-some (values_at m l) (λ rest. some (w ∷ rest)) r q in
    (w, t, p, p', sym (some_inj (w ∷ t) r q'))

pub values_at-lookup :
    (m : Map) (l : List VariableBit) (r : SigSpec) (b : VariableBit)
    → values_at m l ≡ some r
    → contains b l ≡ true
    → (z : SigBit) × (lookup b m ≡ some z)
values_at-lookup m [] r b e h = cc
values_at-lookup m (d ∷ l) r b e h =
    let (w, t, p, p', q) = values_at-cons m d l r e in
    elim (Bool-cases (same_bit b d)) [
      | inl c ↦ (w, ap (λ k. lookup k m) ((same_bit_iff b d).0 c) ∙ p)
      | inr c ↦ values_at-lookup m l t b p' (ground arith)
    ]

values_at-zip :
    (eos : List Variable) (k : List VariableBit) (va vb : Map) (l : List VariableBit)
    (ws zs : SigSpec)
    → ((b : VariableBit)
        → contains b l ≡ true
        → (contains b k ≡ true) × (has_variable b.variable eos ≡ false))
    → values_at va l ≡ some ws
    → values_at vb l ≡ some zs
    → All (IsUpdate eos k va vb) (zip ws zs)
      × ((b : VariableBit) (x : SigBit)
          → contains b l ≡ true
          → lookup b va ≡ some x
          → drives (zip ws zs) x ≡ true)
unfolding values_at zip drives
values_at-zip eos k va vb [] ws zs i e f =
    subst
      (λ ws.
        All (IsUpdate eos k va vb) (zip ws zs)
        × ((b : VariableBit) (x : SigBit)
            → false ≡ true
            → lookup b va ≡ some x
            → drives (zip ws zs) x ≡ true))
      (some_inj [] ws e) (tt, λ b x h. cc)
values_at-zip eos k va vb (b ∷ l) ws zs i e f =
    let (w, t, p, p', q) = values_at-cons va b l ws e in
    let (z, u, r, r', o) = values_at-cons vb b l zs f in
    let (a, d) = values_at-zip eos k va vb l t u (λ c h. i c (ground arith)) p' r' in
    let (m, n) = i b (ground (arith, same_bit_iff b b)) in
    rw (q, o)
      (
        ((b, m, n, p, r), a),
        λ c x h k. ground (arith, d c x, same_bit_iff c b, same_sigbit_iff w x),
      )

values_at-append :
    (m : Map) (l k : List VariableBit) (r : SigSpec)
    → values_at m (l ++ k) ≡ some r
    → (values_at m l ≡ some (take (length l) r)) × (values_at m k ≡ some (drop (length l) r))
unfolding values_at
values_at-append m [] k r e = (refl, e)
values_at-append m (b ∷ l) k r e =
    let (w, t, p, p', q) = values_at-cons m b (l ++ k) r e in
    let (f, g) = values_at-append m l k t p' in rw q (rw (p, f) refl, g)

length-chunk_bits : (c : VariableChunk) → length (chunk_bits c) ≡ c.length
length-chunk_bits c = length-expand c.variable c.base c.length

-- A bit of a variable in scope does not lie in a chunk of one that is out of scope.
in_tail :
    (b : VariableBit) (s : Span) (l : List Span) (eos : List Variable)
    → has_variable s.chunk.variable eos ≡ true
    → has_variable b.variable eos ≡ false
    → contains b (span_bits (s ∷ l)) ≡ true
    → contains b (span_bits l) ≡ true
in_tail b s l eos c k m = elim (Bool-cases (contains b (chunk_bits s.chunk))) [
  | inl h ↦
      let (v, _, _) = contains-expand b s.chunk.variable s.chunk.base s.chunk.length h in
      absurd (true_not_false _ (sym (ap (λ u. has_variable u eos) v ∙ c)) k)
  | inr h ↦ sym (contains_tail b s l h) ∙ m
]

-- The actions of a branch assign, to the net of each bit in scope that the branch updated, the value at its end.
pub branch_actions_lem :
    (eos : List Variable) (k : List VariableBit) (va vb : Map) (source : SigSpec) (done : ℕ)
    (l : List Span) (acts : List SigSig)
    → ((b : VariableBit) → contains b (span_bits l) ≡ true → contains b k ≡ true)
    → branch_actions eos va source done l ≡ some acts
    → values_at vb (span_bits l) ≡ some (drop done source)
    → All (IsUpdate eos k va vb) (flat acts)
      × ((b : VariableBit) (x : SigBit)
          → contains b (span_bits l) ≡ true
          → has_variable b.variable eos ≡ false
          → lookup b va ≡ some x
          → drives (flat acts) x ≡ true)
unfolding branch_actions flat drives
branch_actions_lem eos j va vb source done [] acts i e f =
    subst
      (λ acts.
        All (IsUpdate eos j va vb) (flat acts)
        × ((b : VariableBit) (x : SigBit)
            → false ≡ true
            → has_variable b.variable eos ≡ false
            → lookup b va ≡ some x
            → drives (flat acts) x ≡ true))
      (some_inj [] acts e) (tt, λ b x h. cc)
branch_actions_lem eos j va vb source done (s ∷ l) acts i e f =
    let (g, h) = values_at-append vb (chunk_bits s.chunk) (span_bits l) (drop done source) f in
    let n : length (chunk_bits s.chunk) ≡ s.chunk.length = length-chunk_bits s.chunk in
    let behind : values_at vb (span_bits l) ≡ some (drop (done + s.chunk.length) source) =
      h
      ∙ ap some (drop-drop (length (chunk_bits s.chunk)) done source)
      ∙ ap (λ k. some (drop (done + k) source)) n in
    let here : values_at vb (chunk_bits s.chunk) ≡ some (cut source done s.chunk.length) =
      g ∙ ap (λ k. some (take k (drop done source))) n in
    let i_tail = λ (b : VariableBit) (h : contains b (span_bits l) ≡ true).
      i b (contains-append b (chunk_bits s.chunk) (span_bits l) ∙ (ground arith)) in
    elim (Bool-cases (has_variable s.chunk.variable eos)) [
      | inl c ↦
          let (p, d) =
            branch_actions_lem eos j va vb source (done + s.chunk.length) l acts i_tail
              (if_true _ _ _ _ c e) behind in
          (p, λ b x m k. d b x (in_tail b s l eos c k m) k)
      | inr c ↦
          let i_here : (b : VariableBit)
              → contains b (chunk_bits s.chunk) ≡ true
              → (contains b j ≡ true) × (has_variable b.variable eos ≡ false) =
            λ b h. (
              i b (contains-append b (chunk_bits s.chunk) (span_bits l) ∙ (ground arith)),
              ap (λ v. has_variable v eos)
                    (contains-expand b s.chunk.variable s.chunk.base s.chunk.length h).0
                  ∙ c,
            ) in
          let (ws, p, q) =
            >>=-some (values_at va (chunk_bits s.chunk)) _ acts (if_false _ _ _ _ c e) in
          let (rest, p', q') =
            >>=-some (branch_actions eos va source (done + s.chunk.length) l) _ acts q in
          let (u, d) =
            branch_actions_lem eos j va vb source (done + s.chunk.length) l rest i_tail p' behind in
          let (u', d') =
            values_at-zip eos j va vb (chunk_bits s.chunk) ws (cut source done s.chunk.length)
              i_here p here in
          rw (sym (some_inj ((ws, cut source done s.chunk.length) ∷ rest) acts q')) (
            All-append (IsUpdate eos j va vb) (zip ws (cut source done s.chunk.length)) (flat rest)
                u' u,
            λ b x m k v.
                drives-append (zip ws (cut source done s.chunk.length)) (flat rest) x
                ∙ ground
                    (arith, d b x, d' b x, contains-append b (chunk_bits s.chunk) (span_bits l)),
          )
    ]

contains-all_updated :
    (l : List Updates) (acc : VariableBits) (b : VariableBit)
    → contains b (unpack acc) ≡ true
    → contains b (unpack (all_updated l acc)) ≡ true
unfolding all_updated
contains-all_updated [] acc b h = h
contains-all_updated ((t, v) ∷ l) acc b h = contains-all_updated l (append acc t) b (
    ap (contains b) (unpack-append acc t)
    ∙ contains-append b (unpack acc) (unpack t)
    ∙ (ground arith))

pub all_updated-branch :
    (l : List Updates) (acc : VariableBits) (i : ℕ) (t : VariableBits) (v : SigSpec)
    (b : VariableBit)
    → get_elem? l i ≡ some (t, v)
    → contains b (unpack t) ≡ true
    → contains b (unpack (all_updated l acc)) ≡ true
unfolding all_updated
all_updated-branch [] acc i t v b e h = cc
all_updated-branch ((u, w) ∷ l) acc zero t v b e h = contains-all_updated l (append acc u) b (
    ap (contains b) (unpack-append acc u)
    ∙ contains-append b (unpack acc) (unpack u)
    ∙ (ground arith))
all_updated-branch ((u, w) ∷ l) acc (suc i) t v b e h =
    all_updated-branch l (append acc u) i t v b e h

pub all_branch_actions-branch :
    (eos : List Variable) (va : Map) (l : List Updates) (r : List (List SigSig)) (i : ℕ)
    (t : VariableBits) (v : SigSpec) (acts : List SigSig)
    → all_branch_actions eos va l ≡ some r
    → get_elem? l i ≡ some (t, v)
    → get_elem? r i ≡ some acts
    → branch_actions eos va v 0 (chunk_spans t) ≡ some acts
unfolding all_branch_actions
all_branch_actions-branch eos va [] r i t v acts e h k = cc
all_branch_actions-branch eos va ((u, w) ∷ l) r zero t v acts e h k =
    let (a, p, q) = >>=-some (branch_actions eos va w 0 (chunk_spans u)) _ r e in
    let (rest, p', q') = >>=-some (all_branch_actions eos va l) _ r q in
    let z : a ∷ rest ≡ r = some_inj (a ∷ rest) r q' in
    let c : (u, w) ≡ (t, v) = some_inj (u, w) (t, v) h in
    subst (λ (x : Updates). branch_actions eos va x.1 0 (chunk_spans x.0) ≡ some acts) c
      (p ∙ ap (λ k. get_elem? k 0) z ∙ k)
all_branch_actions-branch eos va ((u, w) ∷ l) r (suc i) t v acts e h k =
    let (a, p, q) = >>=-some (branch_actions eos va w 0 (chunk_spans u)) _ r e in
    let (rest, p', q') = >>=-some (all_branch_actions eos va l) _ r q in
    let z : a ∷ rest ≡ r = some_inj (a ∷ rest) r q' in
    all_branch_actions-branch eos va l rest i t v acts p' h (ap (λ k. get_elem? k (suc i)) z ∙ k)

-- A bit that some branch updates is in a chunk that the loop goes through.
pub updated_bit :
    (rank : Symbol → ℕ) (l : List Updates) (i : ℕ) (target : VariableBits) (source : SigSpec)
    (b : VariableBit)
    → get_elem? l i ≡ some (target, source)
    → contains b (unpack target) ≡ true
    → contains b (span_bits (chunk_spans (updated_anybranch rank l))) ≡ true
unfolding updated_anybranch
updated_bit rank l i target source b e h =
    ap (contains b) (chunk_spans_lem (updated_anybranch rank l)).0
    ∙ contains-sort_and_unify rank (all_updated l empty_bits) b
    ∙ all_updated-branch l empty_bits i target source b e h
