-- ===== src/Variables/Views.antt =====
-- src/variables.h: the chunk and the vector storage of VariableBits as one list of bits.
use Prim.Native.Nat.add
use yosys_slang.Base.{
  ℕ, zero, suc, ◌+◌, ◌-◌, ◌≤◌, ◌<◌, ◌≡◌, refl, ap, ap₂, sym, ◌∙◌, ◌↔◌, true, false, some, List, [],
  ◌∷◌, ◌++◌, append_assoc, append-nil, arith, ◌==◌, if◌then◌else◌, length, get_elem?, take, drop,
  get_elem?-none, get_elem?-some, dec_lt, ℕ_discrete, drop-cons, drop_all,
}
use yosys_slang.Variables.Bits.{
  Variable, VariableBit, VariableChunk, VariableBits, chunk, bits, same_variable, same_bit,
  same_chunk, expand, unpack, bitwidth, bit_at, chunk_at, is_next, of_bit, empty_bits, append_bit,
  append, extract_from, extract, same_from, same_bits, of_parts, same_bit?,
}

pub same_variable_iff : (v w : Variable) → (same_variable v w ≡ true) ↔ (v ≡ w)
unfolding same_variable
same_variable_iff v w = ground arith

pub same_bit_iff : (a b : VariableBit) → (same_bit a b ≡ true) ↔ (a ≡ b)
unfolding same_bit
same_bit_iff a b = ground (arith, same_variable_iff a.variable b.variable)

pub length-expand : (v : Variable) (base n : ℕ) → length (expand v base n) ≡ n
unfolding expand
length-expand v base zero = refl
length-expand v base (suc n) = ap suc (length-expand v (base + 1) n)

pub expand-add :
    (v : Variable) (base m n : ℕ) → expand v base (m + n) ≡ expand v base m ++ expand v (base + m) n
unfolding expand
expand-add v base zero n = ap₂ (expand v) (omega arith) (omega arith)
expand-add v base (suc m) n =
    ap (expand v base) (add.suc m n)
    ∙ ap (◌∷◌ (record { variable = v; offset = base })) (
        expand-add v (base + 1) m n
        ∙ ap (λ k. expand v (base + 1) m ++ expand v k n) {x = base + 1 + m} {y = base + suc m}
            (omega arith))

pub get_elem?-expand :
    (v : Variable) (base n i : ℕ)
    → i < n
    → get_elem? (expand v base n) i ≡ some (record { variable = v; offset = base + i })
unfolding expand
get_elem?-expand v base zero i h = elim h [ ]
get_elem?-expand v base (suc n) zero h = ground arith
get_elem?-expand v base (suc n) (suc i) h =
    get_elem?-expand v (base + 1) n i (omega arith) ∙ ground arith

pub expand-zero : (v : Variable) (base n : ℕ) → n ≡ 0 → expand v base n ≡ []
unfolding expand
expand-zero v base n h = rw h

pub is_next_iff :
    (c : VariableChunk) (b : VariableBit)
    → (is_next c b ≡ true) ↔ (b ≡ record { variable = c.variable; offset = c.base + c.length })
unfolding is_next
is_next_iff c b = ground (arith, same_variable_iff b.variable c.variable)

pub bitwidth-unpack : (v : VariableBits) → bitwidth v ≡ length (unpack v)
unfolding bitwidth unpack
bitwidth-unpack (chunk c) = sym (length-expand c.variable c.base c.length)
bitwidth-unpack (bits l) = refl

pub bit_at-unpack : (v : VariableBits) (i : ℕ) → bit_at v i ≡ get_elem? (unpack v) i
unfolding bit_at unpack chunk_at
bit_at-unpack (chunk c) i = elim (dec_lt i c.length) [
  | yes h ↦ ground (arith, get_elem?-expand c.variable c.base c.length i h)
  | no h ↦ ground (
    arith,
    get_elem?-none (expand c.variable c.base c.length) i
        (omega (arith, length-expand c.variable c.base c.length)),
  )
]
bit_at-unpack (bits l) i = refl

pub unpack-append_bit :
    (v : VariableBits) (b : VariableBit) → unpack (append_bit v b) ≡ unpack v ++ b ∷ []
unfolding append_bit unpack of_bit expand
unpack-append_bit (chunk c) b = ground (
  arith,
  is_next_iff c b,
  expand-add c.variable c.base c.length 1,
  expand-zero c.variable c.base c.length,
)
unpack-append_bit (bits l) b = refl

-- Appending bits puts them behind those that are there, whichever way both are held and the result is.
pub unpack-append : (v w : VariableBits) → unpack (append v w) ≡ unpack v ++ unpack w
unfolding append unpack
unpack-append (chunk c) (chunk d) = ground (
  arith,
  same_variable_iff c.variable d.variable,
  expand-add c.variable c.base c.length d.length,
  expand-zero c.variable c.base c.length,
  expand-zero d.variable d.base d.length,
  append-nil (expand c.variable c.base c.length),
)
unpack-append (chunk c) (bits []) = sym (append-nil _)
unpack-append (chunk c) (bits (b ∷ l)) = ground arith
unpack-append (bits k) (chunk d) =
    ground (arith, expand-zero d.variable d.base d.length, append-nil k)
unpack-append (bits k) (bits []) = sym (append-nil _)
unpack-append (bits k) (bits (b ∷ l)) = ground arith

pub unpack-extract_from :
    (l : List VariableBit) (i n : ℕ) (ret : VariableBits)
    → i + n ≤ length l
    → (r : VariableBits) × (extract_from l i n ret ≡ some r)
      × (unpack r ≡ unpack ret ++ take n (drop i l))
unfolding extract_from
unpack-extract_from l i zero ret h = (ret, refl, sym (append-nil _))
unpack-extract_from l i (suc n) ret h =
    let (b, e) = get_elem?-some l i (omega arith) in
    let (r, p, q) = unpack-extract_from l (i + 1) n (append_bit ret b) (omega arith) in
    (
      r,
      rw e p,
      q
          ∙ ap (λ k. k ++ take n (drop (i + 1) l)) (unpack-append_bit ret b)
          ∙ append_assoc (unpack ret) (b ∷ []) _
          ∙ ap (◌++◌ (unpack ret)) (sym (ap (take (suc n)) (drop-cons l i b e))),
    )

take-expand : (v : Variable) (base n w : ℕ) → w ≤ n → take w (expand v base n) ≡ expand v base w
unfolding expand
take-expand v base n zero h = refl
take-expand v base zero (suc w) h = absurd (omega arith)
take-expand v base (suc n) (suc w) h =
    ap (◌∷◌ (record { variable = v; offset = base })) (take-expand v (base + 1) n w (omega arith))

drop-expand : (v : Variable) (base n i : ℕ) → drop i (expand v base n) ≡ expand v (base + i) (n - i)
unfolding expand
drop-expand v base n zero = ap₂ (expand v) (omega arith) (omega arith)
drop-expand v base zero (suc i) = sym (expand-zero v (base + suc i) (0 - suc i) (omega arith))
drop-expand v base (suc n) (suc i) =
    drop-expand v (base + 1) n i ∙ ap₂ (expand v) (omega arith) (omega arith)

-- A cut that lies within the bits never fails, and yields the bits from `base` on.
pub unpack-extract :
    (v : VariableBits) (base width : ℕ)
    → base + width ≤ bitwidth v
    → (r : VariableBits) × (extract v base width ≡ some r)
      × (unpack r ≡ take width (drop base (unpack v)))
unfolding extract unpack bitwidth empty_bits expand
unpack-extract (chunk c) base width h = (
  _,
  refl,
  sym (
      ap (take width) (drop-expand c.variable c.base c.length base)
      ∙ take-expand c.variable (c.base + base) (c.length - base) width (omega arith)),
)
unpack-extract (bits l) base width h = unpack-extract_from l base width empty_bits h

same_bit_some_iff :
    (v w : VariableBits) (i : ℕ) (a b : VariableBit)
    → bit_at v i ≡ some a
    → bit_at w i ≡ some b
    → (same_bit? (bit_at v i) (bit_at w i) ≡ true) ↔ (a ≡ b)
unfolding same_bit?
same_bit_some_iff v w i a b h k = rw (h, k) (same_bit_iff a b)

-- The loop of `operator==`, from index `i` on.
same_from_iff :
    (v w : VariableBits) (i n : ℕ)
    → bitwidth v ≡ i + n
    → bitwidth w ≡ i + n
    → (same_from v w i n ≡ true) ↔ (drop i (unpack v) ≡ drop i (unpack w))
unfolding same_from
same_from_iff v w i zero h k = (
  λ _.
      drop_all i (unpack v) (omega (arith, bitwidth-unpack v))
      ∙ sym (drop_all i (unpack w) (omega (arith, bitwidth-unpack w))),
  λ _. refl,
)
same_from_iff v w i (suc n) h k =
    let (a, p) = get_elem?-some (unpack v) i (omega (arith, bitwidth-unpack v)) in
    let (b, q) = get_elem?-some (unpack w) i (omega (arith, bitwidth-unpack w)) in
    let ih = same_from_iff v w (i + 1) n (omega arith) (omega arith) in
    let hd = same_bit_some_iff v w i a b (bit_at-unpack v i ∙ p) (bit_at-unpack w i ∙ q) in
    ground (arith, ih, hd, drop-cons (unpack v) i a p, drop-cons (unpack w) i b q)

same_storage_iff :
    (v w : VariableBits)
    → (if bitwidth v == bitwidth w then same_from v w 0 (bitwidth v) else false) ≡ true
      ↔ (unpack v ≡ unpack w)
same_storage_iff v w = elim (ℕ_discrete (bitwidth v) (bitwidth w)) [
  | yes e ↦ ground (arith, same_from_iff v w 0 (bitwidth v) (omega arith) (omega arith))
  | no ne ↦ ground (
    arith,
    λ (e : unpack v ≡ unpack w). bitwidth-unpack v ∙ ap length e ∙ sym (bitwidth-unpack w),
  )
]

pub expand-cons :
    (v : Variable) (base n : ℕ)
    → 0 < n
    → expand v base n ≡ record { variable = v; offset = base } ∷ expand v (base + 1) (n - 1)
unfolding expand
expand-cons v base zero h = elim h [ ]
expand-cons v base (suc n) h =
    ap (λ k. record { variable = v; offset = base } ∷ expand v (base + 1) k) (omega arith)

same_chunk_iff :
    (c d : VariableChunk)
    → 0 < c.length
    → c.length ≡ d.length
    → (same_chunk c d ≡ true)
      ↔ (expand c.variable c.base c.length ≡ expand d.variable d.base d.length)
unfolding same_chunk
same_chunk_iff c d h e = ground (
  arith,
  same_variable_iff c.variable d.variable,
  expand-cons c.variable c.base c.length h,
  expand-cons d.variable d.base d.length (omega arith),
)

-- `operator==`, where the left side is not empty: exactly where both are the same list of bits.
pub same_bits_iff :
    (v w : VariableBits) → 0 < bitwidth v → (same_bits v w ≡ true) ↔ (unpack v ≡ unpack w)
unfolding same_bits bitwidth unpack
same_bits_iff (chunk c) (chunk d) h = elim (ℕ_discrete c.length d.length) [
  | yes e ↦ ground (arith, same_chunk_iff c d h e)
  | no ne ↦ ground (
    arith,
    λ (e : expand c.variable c.base c.length ≡ expand d.variable d.base d.length).
        sym (length-expand c.variable c.base c.length)
        ∙ ap length e
        ∙ length-expand d.variable d.base d.length,
  )
]
same_bits_iff (chunk c) (bits l) h = same_storage_iff (chunk c) (bits l)
same_bits_iff (bits k) (chunk d) h = same_storage_iff (bits k) (chunk d)
same_bits_iff (bits k) (bits l) h = same_storage_iff (bits k) (bits l)

-- `{a, b, c}`: the parts are laid out from the last one, which is the lowest, to the first.
pub concat_parts : List VariableBits → List VariableBit
concat_parts [] = []
concat_parts (p ∷ ps) = concat_parts ps ++ unpack p

pub unpack-of_parts : (ps : List VariableBits) → unpack (of_parts ps) ≡ concat_parts ps
unfolding of_parts concat_parts unpack expand empty_bits
unpack-of_parts [] = refl
unpack-of_parts (p ∷ ps) =
    unpack-append (of_parts ps) p ∙ ap (λ k. k ++ unpack p) (unpack-of_parts ps)
