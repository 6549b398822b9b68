-- ===== src/Variables/Chunks.antt =====
-- src/variables.h: the iterators of `chunks()` and `chunk_spans()`, and `has_dummy_bits`.
use yosys_slang.Base.{
  ℕ, zero, suc, ◌+◌, ◌<◌, ◌≡◌, refl, ap, sym, ◌∙◌, Bool, false, ◌||◌, List, [], ◌∷◌, ◌++◌,
  append_assoc, append-nil, arith, Bool-cases, inl, inr, ℕ_discrete,
}
use yosys_slang.Variables.Bits.{
  Variable, VariableBit, VariableChunk, VariableBits, chunk, bits, expand, chunk_bits, unpack,
  bitwidth, is_next, is_dummy, Span, spans_from, chunk_spans, any_dummy, has_dummy_bits,
}
use yosys_slang.Variables.Views.{is_next_iff, expand-add, expand-zero}

-- The bits of a list of spans, in order.
abbrev pub span_bits : List Span → List VariableBit
span_bits [] = []
span_bits (s ∷ l) = chunk_bits s.chunk ++ span_bits l

-- Spans lie behind one another from index `o` on, and none is empty.
abbrev pub IsLaid : ℕ → List Span → Type 0
IsLaid o [] = Unit {0}
IsLaid o (s ∷ l) = (s.start ≡ o) × (0 < s.chunk.length) × IsLaid (o + s.chunk.length) l

-- No span could take in the bit behind it.
abbrev StopsBefore : VariableChunk → List Span → Type 0
StopsBefore c [] = Unit {0}
StopsBefore c (s ∷ l) = ¬ ((s.chunk.variable ≡ c.variable) × (s.chunk.base ≡ c.base + c.length))

abbrev pub IsMaximal : List Span → Type 0
IsMaximal [] = Unit {0}
IsMaximal (s ∷ l) = StopsBefore s.chunk l × IsMaximal l

-- The chunk that `iterator_base` makes of the bit that it stands at.
abbrev unit_chunk : VariableBit → VariableChunk
unit_chunk b = record { variable = b.variable; base = b.offset; length = 1 }

chunk_bits-unit : (b : VariableBit) → chunk_bits (unit_chunk b) ≡ b ∷ []
unfolding expand
chunk_bits-unit b = refl

grown :
    (c : VariableChunk) (b : VariableBit)
    → b ≡ record { variable = c.variable; offset = c.base + c.length }
    → expand c.variable c.base (c.length + 1) ≡ chunk_bits c ++ b ∷ []
grown c b e =
    expand-add c.variable c.base c.length 1
    ∙ ap (◌++◌ (chunk_bits c)) (chunk_bits-unit _ ∙ ap (λ k. k ∷ []) (sym e))

span_bits-spans_from :
    (o : ℕ) (c : VariableChunk) (l : List VariableBit)
    → span_bits (spans_from o c l) ≡ chunk_bits c ++ l
unfolding spans_from
span_bits-spans_from o c [] = refl
span_bits-spans_from o c (b ∷ l) = elim (Bool-cases (is_next c b)) [
  | inl e ↦ rw e (
      span_bits-spans_from o (record c { length = c.length + 1 }) l
      ∙ ap (λ k. k ++ l) (grown c b ((is_next_iff c b).0 e))
      ∙ append_assoc (chunk_bits c) (b ∷ []) l)
  | inr e ↦ rw e (
      ap (◌++◌ (chunk_bits c)) (
        span_bits-spans_from (o + c.length) (unit_chunk b) l
        ∙ ap (λ k. k ++ l) (chunk_bits-unit b)))
]

spans_from-IsLaid :
    (o : ℕ) (c : VariableChunk) (l : List VariableBit) → 0 < c.length → IsLaid o (spans_from o c l)
unfolding spans_from
spans_from-IsLaid o c [] h = (refl, h, tt)
spans_from-IsLaid o c (b ∷ l) h = ground (
  arith,
  spans_from-IsLaid o (record c { length = c.length + 1 }) l,
  spans_from-IsLaid (o + c.length) (unit_chunk b) l,
)

spans_from-stops :
    (d : VariableChunk) (o : ℕ) (c : VariableChunk) (l : List VariableBit)
    → ¬ ((c.variable ≡ d.variable) × (c.base ≡ d.base + d.length))
    → StopsBefore d (spans_from o c l)
unfolding spans_from
spans_from-stops d o c [] h = h
spans_from-stops d o c (b ∷ l) h =
    ground (arith, spans_from-stops d o (record c { length = c.length + 1 }) l)

spans_from-IsMaximal :
    (o : ℕ) (c : VariableChunk) (l : List VariableBit) → IsMaximal (spans_from o c l)
unfolding spans_from
spans_from-IsMaximal o c [] = (tt, tt)
spans_from-IsMaximal o c (b ∷ l) = elim (Bool-cases (is_next c b)) [
  | inl e ↦ rw e (spans_from-IsMaximal o (record c { length = c.length + 1 }) l)
  | inr e ↦ rw e (
    spans_from-stops c (o + c.length) (unit_chunk b) l
        (λ h. ground (arith, is_next_iff c b, h.0, h.1)),
    spans_from-IsMaximal (o + c.length) (unit_chunk b) l,
  )
]

-- The spans make up the bits, in order; each starts where the one before it ends, none is empty, and no two neighbours could be one chunk.
pub chunk_spans_lem :
    (v : VariableBits)
    → (span_bits (chunk_spans v) ≡ unpack v) × IsLaid 0 (chunk_spans v) × IsMaximal (chunk_spans v)
unfolding chunk_spans unpack
chunk_spans_lem (chunk c) = elim (ℕ_discrete c.length 0) [
  | yes e ↦ ground (arith, expand-zero c.variable c.base c.length e)
  | no ne ↦ ground (arith, append-nil (chunk_bits c))
]
chunk_spans_lem (bits []) = (refl, tt, tt)
chunk_spans_lem (bits (b ∷ l)) = (
  span_bits-spans_from 0 (unit_chunk b) l ∙ ap (λ k. k ++ l) (chunk_bits-unit b),
  spans_from-IsLaid 0 _ l (omega arith),
  spans_from-IsMaximal 0 _ l,
)

-- Some bit of the list belongs to a dummy.
abbrev pub any_dummy_bit : List VariableBit → Bool
any_dummy_bit [] = false
any_dummy_bit (b ∷ l) = is_dummy b.variable || any_dummy_bit l

any_dummy_bit-expand :
    (v : Variable) (base n : ℕ) (l : List VariableBit)
    → 0 < n
    → any_dummy_bit (expand v base n ++ l) ≡ is_dummy v || any_dummy_bit l
unfolding expand
any_dummy_bit-expand v base zero l h = elim h [ ]
any_dummy_bit-expand v base (suc zero) l h = refl
any_dummy_bit-expand v base (suc (suc n)) l h =
    ground (arith, any_dummy_bit-expand v (base + 1) (suc n) l (omega arith))

any_dummy-span_bits :
    (o : ℕ) (l : List Span) → IsLaid o l → any_dummy l ≡ any_dummy_bit (span_bits l)
unfolding any_dummy
any_dummy-span_bits o [] h = refl
any_dummy-span_bits o (s ∷ l) h =
    ap (◌||◌ (is_dummy s.chunk.variable)) (any_dummy-span_bits (o + s.chunk.length) l h.2)
    ∙ sym (any_dummy_bit-expand s.chunk.variable s.chunk.base s.chunk.length (span_bits l) h.1)

-- `has_dummy_bits` on bits that are not empty: exactly where some bit belongs to a dummy.
pub has_dummy_bits_lem :
    (v : VariableBits) → 0 < bitwidth v → has_dummy_bits v ≡ any_dummy_bit (unpack v)
unfolding has_dummy_bits unpack bitwidth
has_dummy_bits_lem (chunk c) h =
    ground (arith, any_dummy_bit-expand c.variable c.base c.length [] h, append-nil (chunk_bits c))
has_dummy_bits_lem (bits l) h =
    let (p, q, _) = chunk_spans_lem (bits l) in
    any_dummy-span_bits 0 (chunk_spans (bits l)) q ∙ ap any_dummy_bit p
