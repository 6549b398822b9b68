-- ===== src/Statements/Merge/Steps.antt =====
-- src/statements.h, SwitchHelper::finish: what one chunk's placeholder changes.
use yosys_slang.Base.{
  ℕ, zero, suc, ◌+◌, ◌-◌, ◌<◌, ◌≤◌, ◌≡◌, refl, sym, ap, subst, Bool, true, false, ◌&&◌, not, Option,
  some, List, [], ◌∷◌, ◌++◌, if◌then◌else◌, arith, Bool-cases, inl, inr, ◌>>=◌, ◌>>◌, >>=-some,
  some_inj, length, get_elem?, log_assert, ◌⊎◌,
}
use yosys_slang.Rtlil.{SigBit, SigSpec, wire_bit}
use yosys_slang.Variables.{
  Symbol, Variable, VariableBit, VariableBits, VariableChunk, Span, chunk, bitwidth, unpack,
  chunk_bits, expand, same_bit,
}
use yosys_slang.Variables.Sorting.{contains}
use yosys_slang.Variables.Views.{same_bit_iff}
use yosys_slang.State.{
  VariableState, lookup, set, set_bit, set_bits, evaluate_chunk, evaluate_chunk_list,
  evaluate_chunk_bit,
}
use yosys_slang.State.Undo.{lookup-insert}
use yosys_slang.Procedural.{has_variable}
use yosys_slang.Statements.Merge.Defs.{
  Merge, wire_bits, merge_live, merge_chunk, merge_chunks, is_static, none_has_value,
}

pub contains-expand :
    (b : VariableBit) (v : Variable) (base n : ℕ)
    → contains b (expand v base n) ≡ true
    → (b.variable ≡ v) × (base ≤ b.offset) × (b.offset < base + n)
unfolding expand
contains-expand b v base zero h = cc
contains-expand b v base (suc n) h = ground (
  arith,
  contains-expand b v (base + 1) n,
  same_bit_iff b (record { variable = v; offset = base }),
)

-- A chunk that is set to a wire: each of its bits has the wire's bit at its place.
pub lookup-set_bits :
    (s : VariableState) (b : VariableBit) (v : Variable) (base n w i : ℕ)
    → lookup b (set_bits s (expand v base n) (wire_bits w i n)).visible_assignments ≡ (
        if contains b (expand v base n)
        then some (wire_bit w (i + (b.offset - base)))
        else lookup b s.visible_assignments)
unfolding set_bits expand wire_bits set_bit
lookup-set_bits s b v base zero w i = refl
lookup-set_bits s b v base (suc n) w i =
    let b0 : VariableBit = record { variable = v; offset = base } in
    let u = set_bit s b0 (wire_bit w i) in
    ground (
      arith,
      lookup-set_bits u b v (base + 1) n w (i + 1),
      contains-expand b v (base + 1) n,
      same_bit_iff b b0,
      same_bit_iff b0 b,
      lookup-insert b b0 (wire_bit w i) s.visible_assignments,
    )

pub length-wire_bits : (w i n : ℕ) → length (wire_bits w i n) ≡ n
unfolding wire_bits
length-wire_bits w i zero = refl
length-wire_bits w i (suc n) = ap suc (length-wire_bits w (i + 1) n)

pub set-some :
    (s t : VariableState) (lhs : VariableBits) (value : SigSpec)
    → set s lhs value ≡ some t
    → (bitwidth lhs ≡ length value) × (set_bits s (unpack lhs) value ≡ t)
unfolding set
set-some s t lhs value e = ground arith

c_right : (a b : Bool) → (a && b) ≡ true → b ≡ true
c_right a b h = ground arith

if-some :
    (b c : Bool) (m k : Merge) (o : Option Merge)
    → (if b then (do log_assert c; some m) else o) ≡ some k
    → ((b ≡ true) × (m ≡ k)) ⊎ (o ≡ some k)
if-some true true m k o e = inl (refl, some_inj m k e)
if-some true false m k o e = cc
if-some false c m k o e = inr e

module _ (wire : Symbol → ℕ → SigBit) where
  pub evaluate_chunk_list-bit :
      (s : VariableState) (b : VariableBit) (v : Variable) (base n : ℕ) (r : SigSpec)
      → evaluate_chunk_list wire s (expand v base n) ≡ some r
      → contains b (expand v base n) ≡ true
      → (y : SigBit) × (evaluate_chunk_bit wire s b ≡ some y)
        × (get_elem? r (b.offset - base) ≡ some y)
  unfolding evaluate_chunk_list expand
  evaluate_chunk_list-bit s b v base zero r e h = cc
  evaluate_chunk_list-bit s b v base (suc n) r e h =
      let b0 : VariableBit = record { variable = v; offset = base } in
      let (y, p, q) =
        >>=-some (evaluate_chunk_bit wire s b0)
          (λ y. do rest ← evaluate_chunk_list wire s (expand v (base + 1) n); some (y ∷ rest)) r
          e in
      let (t, p', q') =
        >>=-some (evaluate_chunk_list wire s (expand v (base + 1) n)) (λ rest. some (y ∷ rest)) r
          q in
      let z : y ∷ t ≡ r = some_inj (y ∷ t) r q' in
      elim (Bool-cases (same_bit b b0)) [
        | inl c ↦
            let d : b ≡ b0 = (same_bit_iff b b0).0 c in
            (y, rw d p, rw (sym z) (let o : b.offset - base ≡ 0 = rw d (omega arith) in rw o refl))
        | inr c ↦
            let k : contains b (expand v (base + 1) n) ≡ true = ground arith in
            let (x, f, g) = evaluate_chunk_list-bit s b v (base + 1) n t p' k in
            let (_, o, _) = contains-expand b v (base + 1) n k in
            let a : b.offset - base ≡ suc (b.offset - (base + 1)) = omega arith in
            (x, f, rw (sym z) (rw a g))
      ]

  -- What it changes that a chunk is given a placeholder.
  pub record Placed (c : VariableChunk) (m n : Merge) : Type 0 where
    pub sources : SigSpec
    pub evaluated : evaluate_chunk wire m.vstate c ≡ some sources
    pub next : n.next_wire ≡ suc m.next_wire
    pub driven : n.defaults ≡ m.defaults ++ ((wire_bits m.next_wire 0 c.length, sources) ∷ [])
    pub values :
        (b : VariableBit)
        → lookup b n.vstate.visible_assignments ≡ (
            if contains b (chunk_bits c)
            then some (wire_bit m.next_wire (0 + (b.offset - c.base)))
            else lookup b m.vstate.visible_assignments)

  pub merge_live_lem :
      (c : VariableChunk) (m n : Merge) → merge_live wire c m ≡ some n → Placed c m n
  unfolding merge_live set unpack
  merge_live_lem c m n e =
      let w = wire_bits m.next_wire 0 c.length in
      let (d, p, q) =
        >>=-some (evaluate_chunk wire m.vstate c)
          (λ d. do
            v ← set m.vstate (chunk c) w
            some (record {
              vstate = v;
              next_wire = suc m.next_wire;
              defaults = m.defaults ++ ((w, d) ∷ []);
            }))
          n e in
      let (v, p', q') =
        >>=-some (set m.vstate (chunk c) w)
          (λ v. some (record {
            vstate = v;
            next_wire = suc m.next_wire;
            defaults = m.defaults ++ ((w, d) ∷ []);
          }))
          n q in
      let z : set_bits m.vstate (chunk_bits c) w ≡ v = (set-some m.vstate v (chunk c) w p').1 in
      subst (λ k. Placed c m k) (some_inj _ n q')
        (record {
          sources = d;
          evaluated = p;
          next = refl;
          driven = refl;
          values = λ b.
              subst
                (λ u. lookup b u.visible_assignments ≡ (
                  if contains b (chunk_bits c)
                  then some (wire_bit m.next_wire (0 + (b.offset - c.base)))
                  else lookup b m.vstate.visible_assignments))
                z (lookup-set_bits m.vstate b c.variable c.base c.length m.next_wire 0);
        })

-- The run of the loop over the chunks.
module _ (wire : Symbol → ℕ → SigBit) (eos : List Variable) where
  pub data Steps : List Span → Merge → Merge → Type 0 where
    stop : {m : Merge} → Steps [] m m
    skip :
        {s : Span} {l : List Span} {m n : Merge}
        → has_variable s.chunk.variable eos ≡ true
        → Steps l m n
        → Steps (s ∷ l) m n
    live :
        {s : Span} {l : List Span} {m k n : Merge}
        → Placed wire s.chunk m k
        → Steps l k n
        → Steps (s ∷ l) m n

  pub merge_chunks-Steps :
      (l : List Span) (m n : Merge) → merge_chunks wire eos l m ≡ some n → Steps l m n
  unfolding merge_chunks merge_chunk
  merge_chunks-Steps [] m n e = subst (λ k. Steps [] m k) (some_inj m n e) stop
  merge_chunks-Steps (s ∷ l) m n e =
      let (k, p, q) =
        >>=-some (merge_chunk wire eos s.chunk m) (λ k. merge_chunks wire eos l k) n e in
      let rest = merge_chunks-Steps l k n q in
      elim (if-some (not (is_static s.chunk.variable) && has_variable s.chunk.variable eos)
        (none_has_value m.vstate.visible_assignments (chunk_bits s.chunk)) m k
        (merge_live wire s.chunk m) p) [
          | inl (c, d) ↦ skip (c_right _ _ c) (subst (λ u. Steps l u n) (sym d) rest)
          | inr c ↦ live (merge_live_lem wire s.chunk m k c) rest
        ]
