-- ===== src/Statements/Merge/Wires.antt =====
-- src/statements.h, SwitchHelper::finish: each placeholder stands for one bit, and follows its default
-- unless a branch drives it.
use yosys_slang.Base.{
  ℕ, ◌+◌, ◌-◌, ◌<◌, ◌≤◌, ◌≡◌, refl, sym, ap, subst, ◌∙◌, Bool, true, false, ◌||◌, some, List, [],
  ◌∷◌, ◌++◌, append_assoc, append-nil, arith, Bool-cases, inl, inr, some_inj, dec_lt,
}
use yosys_slang.Rtlil.{SigBit, wire_bit}
use yosys_slang.Cases.{SigSig}
use yosys_slang.Variables.{Symbol, Variable, VariableBit, VariableChunk, Span, chunk_bits}
use yosys_slang.Variables.Chunks.{span_bits}
use yosys_slang.Variables.Sorting.{contains}
use yosys_slang.State.{VariableState, lookup, evaluate_chunk, evaluate_chunk_bit}
use yosys_slang.Procedural.{has_variable}
use yosys_slang.Statements.Merge.Defs.{Merge, wire_bits}
use yosys_slang.Statements.Merge.Nets.{
  Pairs, flat, zip, drives, drives-append, Settles, Settles-wire_bits, Settles_behind,
  drives-wire_bits,
}
use yosys_slang.Statements.Merge.Steps.{
  Placed, Steps, stop, skip, live, contains-expand, evaluate_chunk_list-bit,
}

module _ (wire : Symbol → ℕ → SigBit) where
  pub lookup-evaluate :
      (s : VariableState) (b : VariableBit) (v : SigBit)
      → lookup b s.visible_assignments ≡ some v
      → evaluate_chunk_bit wire s b ≡ some v
  unfolding evaluate_chunk_bit
  lookup-evaluate s b v e = rw (evaluate_chunk_bit, e) refl

  pub same_lookup :
      (s t : VariableState) (b : VariableBit)
      → lookup b t.visible_assignments ≡ lookup b s.visible_assignments
      → evaluate_chunk_bit wire t b ≡ evaluate_chunk_bit wire s b
  unfolding evaluate_chunk_bit
  same_lookup s t b e = rw (evaluate_chunk_bit, e) refl

same_parts : (a b : VariableBit) → a.variable ≡ b.variable → a.offset ≡ b.offset → a ≡ b
same_parts a b h k = cc

pub contains-append :
    (b : VariableBit) (l k : List VariableBit)
    → contains b (l ++ k) ≡ (contains b l || contains b k)
contains-append b [] k = refl
contains-append b (a ∷ l) k = ground (arith, contains-append b l k)

pub contains_tail :
    (b : VariableBit) (s : Span) (l : List Span)
    → contains b (chunk_bits s.chunk) ≡ false
    → contains b (span_bits (s ∷ l)) ≡ contains b (span_bits l)
contains_tail b s l h = contains-append b (chunk_bits s.chunk) (span_bits l) ∙ (rw h refl)

pub true_not_false : (b : Bool) → true ≡ b → b ≡ false → ⊥
true_not_false b h k = cc

-- The wires from `next_wire` on are not in use.
abbrev pub IsFresh : Merge → Type 0
IsFresh m =
    (b : VariableBit) (k i : ℕ)
    → lookup b m.vstate.visible_assignments ≡ some (wire_bit k i)
    → k < m.next_wire

module _ (wire : Symbol → ℕ → SigBit) (c : VariableChunk) (m n : Merge)
    (p : Placed wire c m n) where
  Placed-IsFresh : IsFresh m → IsFresh n
  Placed-IsFresh f b k i h = ground (arith, f b k i, p.values b, p.next)

  Placed-old :
      (b : VariableBit) (k i : ℕ)
      → lookup b n.vstate.visible_assignments ≡ some (wire_bit k i)
      → k < m.next_wire
      → lookup b m.vstate.visible_assignments ≡ some (wire_bit k i)
  Placed-old b k i h q = ground (arith, p.values b)

  -- The bits of the new wire are those of the chunk.
  Placed-new :
      IsFresh m
      → (b : VariableBit) (i : ℕ)
      → lookup b n.vstate.visible_assignments ≡ some (wire_bit m.next_wire i)
      → (contains b (chunk_bits c) ≡ true) × (i ≡ b.offset - c.base)
  Placed-new f b i h = ground (arith, p.values b, f b m.next_wire i)

  Placed-own :
      IsFresh m
      → (b d : VariableBit) (i : ℕ)
      → lookup b n.vstate.visible_assignments ≡ some (wire_bit m.next_wire i)
      → lookup d n.vstate.visible_assignments ≡ some (wire_bit m.next_wire i)
      → b ≡ d
  Placed-own f b d i h k =
      let (hb, ib) = Placed-new f b i h in
      let (hd, id) = Placed-new f d i k in
      let (vb, lb, _) = contains-expand b c.variable c.base c.length hb in
      let (vd, ld, _) = contains-expand d c.variable c.base c.length hd in
      same_parts b d (vb ∙ sym vd) (omega arith)

module _ (wire : Symbol → ℕ → SigBit) (eos : List Variable) where
  Steps-next : (l : List Span) (m n : Merge) → Steps wire eos l m n → m.next_wire ≤ n.next_wire
  Steps-next l m n stop = omega arith
  Steps-next l m n (skip h r) = Steps-next _ m n r
  Steps-next l m n (live {k} p r) = omega (arith, Steps-next _ k n r, p.next)

  -- A bit that has an old wire in the end had it before.
  pub Steps-old :
      (l : List Span) (m n : Merge)
      → Steps wire eos l m n
      → (b : VariableBit) (k i : ℕ) → lookup b n.vstate.visible_assignments ≡ some (wire_bit k i)
      → k < m.next_wire
      → lookup b m.vstate.visible_assignments ≡ some (wire_bit k i)
  Steps-old l m n stop b k i h q = h
  Steps-old l m n (skip _ r) b k i h q = Steps-old _ m n r b k i h q
  Steps-old l m n (live {s} {k = u} p r) b k i h q =
      Placed-old wire s.chunk m u p b k i (Steps-old _ u n r b k i h (omega (arith, p.next))) q

  -- No two bits have one new wire's bit.
  pub Steps-own :
      (l : List Span) (m n : Merge)
      → Steps wire eos l m n
      → IsFresh m
      → (b d : VariableBit) (k i : ℕ) → m.next_wire ≤ k
      → lookup b n.vstate.visible_assignments ≡ some (wire_bit k i)
      → lookup d n.vstate.visible_assignments ≡ some (wire_bit k i)
      → b ≡ d
  Steps-own l m n stop f b d k i q hb hd = absurd (omega (arith, f b k i hb))
  Steps-own l m n (skip _ r) f b d k i q hb hd = Steps-own _ m n r f b d k i q hb hd
  Steps-own l m n (live {s} {k = u} p r) f b d k i q hb hd = elim (dec_lt k u.next_wire) [
    | yes o ↦
        let e : k ≡ m.next_wire = omega (arith, p.next) in
        let ob = Steps-old _ u n r b k i hb o in
        let od = Steps-old _ u n r d k i hd o in
        Placed-own wire s.chunk m u p f b d i
          (subst (λ j. lookup b u.vstate.visible_assignments ≡ some (wire_bit j i)) e ob)
          (subst (λ j. lookup d u.vstate.visible_assignments ≡ some (wire_bit j i)) e od)
    | no o ↦ Steps-own _ u n r (Placed-IsFresh wire s.chunk m u p f) b d k i (omega arith) hb hd
  ]

  -- A bit that has a wire has one in the end, as new or newer.
  Steps-newer :
      (l : List Span) (m n : Merge)
      → Steps wire eos l m n
      → (b : VariableBit) (k i : ℕ) → lookup b m.vstate.visible_assignments ≡ some (wire_bit k i)
      → k ≤ m.next_wire
      → (u : ℕ) × (j : ℕ) × (k ≤ u) × (lookup b n.vstate.visible_assignments ≡ some (wire_bit u j))
  Steps-newer l m n stop b k i h q = (k, i, omega arith, h)
  Steps-newer l m n (skip _ r) b k i h q = Steps-newer _ m n r b k i h q
  Steps-newer l m n (live {s} {k = u} p r) b k i h q =
      elim (Bool-cases (contains b (chunk_bits s.chunk))) [
        | inl c ↦
            let (v, j, o, e) =
              Steps-newer _ u n r b m.next_wire (0 + (b.offset - s.chunk.base))
                (p.values b ∙ (rw c refl)) (omega (arith, p.next)) in
            (v, j, omega arith, e)
        | inr c ↦ Steps-newer _ u n r b k i (p.values b ∙ (rw c h)) (omega (arith, p.next))
      ]

  -- A bit of the chunks, of a variable in scope, has a new wire in the end.
  pub Steps-covered :
      (l : List Span) (m n : Merge)
      → Steps wire eos l m n
      → (b : VariableBit) → contains b (span_bits l) ≡ true
      → has_variable b.variable eos ≡ false
      → (k : ℕ) × (i : ℕ) × (m.next_wire ≤ k)
        × (lookup b n.vstate.visible_assignments ≡ some (wire_bit k i))
  Steps-covered l m n stop b h q = cc
  Steps-covered l m n (skip {s} {l = t} e r) b h q =
      elim (Bool-cases (contains b (chunk_bits s.chunk))) [
        | inl c ↦
            let (v, _, _) = contains-expand b s.chunk.variable s.chunk.base s.chunk.length c in
            absurd (true_not_false _ (sym (ap (λ u. has_variable u eos) v ∙ e)) q)
        | inr c ↦ Steps-covered t m n r b (sym (contains_tail b s t c) ∙ h) q
      ]
  Steps-covered l m n (live {s} {l = t} {k = u} p r) b h q =
      elim (Bool-cases (contains b (chunk_bits s.chunk))) [
        | inl c ↦
            let (v, j, o, e) =
              Steps-newer _ u n r b m.next_wire (0 + (b.offset - s.chunk.base))
                (p.values b ∙ (rw c refl)) (omega (arith, p.next)) in
            (v, j, o, e)
        | inr c ↦
            let (v, j, o, e) = Steps-covered t u n r b (sym (contains_tail b s t c) ∙ h) q in
            (v, j, omega (arith, p.next), e)
      ]

  module _ {V : Type 0} (val : SigBit → V) where
    behind :
        (k : Pairs) (rest : List SigSig) (rule : Pairs)
        → Settles val ((k ++ flat rest) ++ rule)
        → Settles val (flat rest ++ rule)
    behind k rest rule q =
        Settles_behind val k (flat rest ++ rule)
          (subst (Settles val) (append_assoc k (flat rest) rule) q)

    driven_owner :
        (l : List Span) (s : Span) (m u n : Merge)
        → Placed wire s.chunk m u
        → Steps wire eos l u n
        → IsFresh m
        → (rule : Pairs)
        → ((w : SigBit)
            → drives rule w ≡ true
            → (d : VariableBit) × (lookup d n.vstate.visible_assignments ≡ some w))
        → (b : VariableBit) (i : ℕ) (x : SigBit)
        → lookup b u.vstate.visible_assignments ≡ some (wire_bit m.next_wire i)
        → evaluate_chunk_bit wire n.vstate b ≡ some x
        → drives rule x ≡ false
        → drives rule (wire_bit m.next_wire i) ≡ false
    driven_owner l s m u n p r f rule o b i x hb hx h =
        elim (Bool-cases (drives rule (wire_bit m.next_wire i))) [
          | inr c ↦ c
          | inl c ↦
              let (d, e) = o (wire_bit m.next_wire i) c in
              let hd = Steps-old l u n r d m.next_wire i e (omega (arith, p.next)) in
              let q : b ≡ d = Placed-own wire s.chunk m u p f b d i hb hd in
              let z : wire_bit m.next_wire i ≡ x =
                some_inj _ x (sym (lookup-evaluate wire n.vstate b _ (rw q e)) ∙ hx) in
              absurd (true_not_false _ (sym (ap (drives rule) (sym z) ∙ c)) h)
        ]

    chunk_value :
        (l : List Span) (s : Span) (m u n : Merge) (p : Placed wire s.chunk m u)
        → Steps wire eos l u n
        → IsFresh m
        → (rest : Pairs) → ((k i : ℕ) → k < u.next_wire → drives rest (wire_bit k i) ≡ false)
        → (rule : Pairs)
        → ((w : SigBit)
            → drives rule w ≡ true
            → (d : VariableBit) × (lookup d n.vstate.visible_assignments ≡ some w))
        → Settles val ((zip (wire_bits m.next_wire 0 s.chunk.length) p.sources ++ rest) ++ rule)
        → (b : VariableBit) (x y : SigBit) → contains b (chunk_bits s.chunk) ≡ true
        → evaluate_chunk_bit wire m.vstate b ≡ some y
        → evaluate_chunk_bit wire n.vstate b ≡ some x
        → drives rule x ≡ false
        → val (wire_bit m.next_wire (0 + (b.offset - s.chunk.base))) ≡ val y
    unfolding evaluate_chunk
    chunk_value l s m u n p r f rest w rule o q b x y c e hx h =
        let j : ℕ = b.offset - s.chunk.base in
        let (z, ez, g) =
          evaluate_chunk_list-bit wire m.vstate b s.chunk.variable s.chunk.base s.chunk.length
            p.sources p.evaluated c in
        let hb = p.values b ∙ (rw c refl) in
        let a = driven_owner l s m u n p r f rule o b (0 + j) x hb hx h in
        let (_, lo, hi) = contains-expand b s.chunk.variable s.chunk.base s.chunk.length c in
        Settles-wire_bits val m.next_wire 0 s.chunk.length p.sources (rest ++ rule) j z
          (subst (Settles val)
            (append_assoc (zip (wire_bits m.next_wire 0 s.chunk.length) p.sources) rest rule) q)
          g (omega arith)
          (drives-append rest rule _
            ∙ ap (λ k. k || drives rule (wire_bit m.next_wire (0 + j)))
                (w m.next_wire (0 + j) (omega (arith, p.next)))
            ∙ a)
        ∙ ap val (some_inj z y (sym ez ∙ e))

    -- The placeholders' defaults: none drives an older wire. A bit whose wire no action of `rule` drives has
    -- the value it had before.
    pub Steps-values :
        (l : List Span) (m n : Merge)
        → Steps wire eos l m n
        → IsFresh m
        → (rest : List SigSig) × (n.defaults ≡ m.defaults ++ rest)
          × ((k i : ℕ) → k < m.next_wire → drives (flat rest) (wire_bit k i) ≡ false)
          × ((rule : Pairs)
              → ((w : SigBit)
                  → drives rule w ≡ true
                  → (b : VariableBit) × (lookup b n.vstate.visible_assignments ≡ some w))
              → Settles val (flat rest ++ rule)
              → (b : VariableBit) (y : SigBit) → evaluate_chunk_bit wire m.vstate b ≡ some y
              → (x : SigBit) × (evaluate_chunk_bit wire n.vstate b ≡ some x)
                × (drives rule x ≡ false → val x ≡ val y))
    unfolding flat drives
    Steps-values l m n stop f =
        ([], sym (append-nil _), (λ k i h. refl), λ rule _ _ b y e. (y, e, λ _. refl))
    Steps-values l m n (skip _ r) f = Steps-values _ m n r f
    Steps-values l m n (live {s} {l = t} {k = u} p r) f =
        let (rest, d, w, g) = Steps-values t u n r (Placed-IsFresh wire s.chunk m u p f) in
        (
          (wire_bits m.next_wire 0 s.chunk.length, p.sources) ∷ rest,
          d ∙ ap (λ k. k ++ rest) p.driven ∙ append_assoc m.defaults _ rest,
          (λ k i h.
              drives-wire_bits m.next_wire 0 s.chunk.length p.sources (flat rest) k i
                (inl (λ z. absurd (omega arith)))
              ∙ w k i (omega (arith, p.next))),
          λ rule o q b y e. elim (Bool-cases (contains b (chunk_bits s.chunk))) [
            | inl c ↦
                let (x, hx, v) =
                  g rule o (behind _ rest rule q) b _
                    (lookup-evaluate wire u.vstate b _ (p.values b ∙ (rw c refl))) in
                (
                  x,
                  hx,
                  λ h. v h ∙ chunk_value t s m u n p r f (flat rest) w rule o q b x y c e hx h,
                )
            | inr c ↦
                g rule o (behind _ rest rule q) b y
                  (same_lookup wire m.vstate u.vstate b (p.values b ∙ (rw c refl)) ∙ e)
          ],
        )
