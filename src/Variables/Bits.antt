-- ===== src/Variables/Bits.antt =====
-- The data and the operations of variables.h and of Variable in variables.cc.
use yosys_slang.Base.{
  ℕ, zero, suc, ◌+◌, Bool, true, false, ◌&&◌, ◌||◌, Option, none, some, List, [], ◌∷◌, ◌++◌, ◌==◌,
  ltb, if◌then◌else◌, length, get_elem?, log_assert, ◌>>=◌, ◌>>◌,
}

-- A `const ast::ValueSymbol *`.
abbrev pub Symbol : Type 0
Symbol = ℕ

pub data Variable : Type 0 where
  static : Symbol → Variable
  local : Symbol → ℕ → Variable
  escape_flag : ℕ → Variable
  dummy : ℕ → Variable
  invalid : Variable

-- `std::tuple<int, void *, uint64_t>`.
pub record HashLabel : Type 0 where
  pub kind : ℕ
  pub ptr : Option Symbol
  pub num : ℕ

-- `none` is the `log_abort` on the Invalid variable.
unfoldable pub hash_label : Variable → Option HashLabel
hash_label (static s) = some (record { kind = 0; ptr = some s; num = 0 })
hash_label (local s depth) = some (record { kind = 1; ptr = some s; num = depth })
hash_label (escape_flag id) = some (record { kind = 2; ptr = none; num = id })
hash_label (dummy width) = some (record { kind = 3; ptr = none; num = width })
hash_label invalid = none

same_ptr : Option Symbol → Option Symbol → Bool
same_ptr none none = true
same_ptr (some s) (some t) = s == t
same_ptr _ _ = false

same_label : HashLabel → HashLabel → Bool
unfolding same_ptr
same_label k l = k.kind == l.kind && same_ptr k.ptr l.ptr && k.num == l.num

-- `Variable::operator==`; `none` is the `log_abort` on an Invalid variable.
unfoldable pub equal_variables : Variable → Variable → Option Bool
unfolding same_label hash_label
equal_variables v w = do k ← hash_label v; l ← hash_label w; some (same_label k l)

unfoldable pub kind_number : Variable → ℕ
kind_number (static s) = 0
kind_number (local s depth) = 1
kind_number (escape_flag id) = 2
kind_number (dummy width) = 3
kind_number invalid = 4

-- The value of `operator==`. Where that aborts it is whether both variables are Invalid.
unfoldable pub same_variable : Variable → Variable → Bool
unfolding equal_variables kind_number
same_variable v w = elim (equal_variables v w) [
  | some b ↦ b
  | none ↦ kind_number v == kind_number w
]

unfoldable pub get_symbol : Variable → Option Symbol
get_symbol (static s) = some s
get_symbol (local s depth) = some s
get_symbol _ = none

-- `none` is the `log_abort` on the Invalid variable.
unfoldable pub variable_bitwidth : (Symbol → ℕ) → Variable → Option ℕ
variable_bitwidth width_of (static s) = some (width_of s)
variable_bitwidth width_of (local s depth) = some (width_of s)
variable_bitwidth width_of (escape_flag id) = some 1
variable_bitwidth width_of (dummy width) = some width
variable_bitwidth width_of invalid = none

unfoldable pub is_dummy : Variable → Bool
is_dummy (dummy width) = true
is_dummy _ = false

pub record VariableBit : Type 0 where
  pub variable : Variable
  pub offset : ℕ

unfoldable pub same_bit : VariableBit → VariableBit → Bool
unfolding same_variable
same_bit a b = same_variable a.variable b.variable && a.offset == b.offset

pub record VariableChunk : Type 0 where
  pub variable : Variable
  pub base : ℕ
  pub length : ℕ

-- `VariableChunk::operator[]`.
unfoldable pub chunk_at : VariableChunk → ℕ → Option VariableBit
chunk_at c key = do
  log_assert (ltb key c.length)
  some (record { variable = c.variable; offset = c.base + key })

unfoldable pub same_chunk : VariableChunk → VariableChunk → Bool
unfolding same_variable
same_chunk c d = same_variable c.variable d.variable && c.base == d.base && c.length == d.length

-- The `length` bits of a chunk from `base` on, in order.
unfoldable pub expand : Variable → ℕ → ℕ → List VariableBit
expand v base zero = []
expand v base (suc n) = record { variable = v; offset = base } ∷ expand v (base + 1) n

abbrev pub chunk_bits : VariableChunk → List VariableBit
chunk_bits c = expand c.variable c.base c.length

-- `std::variant<VariableChunk, std::vector<VariableBit>>`.
pub data VariableBits : Type 0 where
  chunk : VariableChunk → VariableBits
  bits : List VariableBit → VariableBits

-- `VariableBits::unpack`, as the vector that it leaves in the storage.
unfoldable pub unpack : VariableBits → List VariableBit
unpack (chunk c) = chunk_bits c
unpack (bits l) = l

-- The default constructor.
unfoldable pub empty_bits : VariableBits
empty_bits = chunk (record { variable = invalid; base = 0; length = 0 })

unfoldable pub of_bit : VariableBit → VariableBits
of_bit b = chunk (record { variable = b.variable; base = b.offset; length = 1 })

-- The constructor from a Variable of the given width.
unfoldable pub of_variable : Variable → ℕ → VariableBits
of_variable v width = chunk (record { variable = v; base = 0; length = width })

unfoldable pub bitwidth : VariableBits → ℕ
bitwidth (chunk c) = c.length
bitwidth (bits l) = length l

unfoldable pub is_empty : VariableBits → Bool
unfolding bitwidth
is_empty v = bitwidth v == 0

-- `VariableBits::operator[]`.
unfoldable pub bit_at : VariableBits → ℕ → Option VariableBit
unfolding chunk_at
bit_at (chunk c) i = chunk_at c i
bit_at (bits l) i = get_elem? l i

unfoldable pub same_bit? : Option VariableBit → Option VariableBit → Bool
unfolding same_bit
same_bit? (some a) (some b) = same_bit a b
same_bit? _ _ = false

-- The loop of `operator==` over the `n` bits from `i` on.
unfoldable pub same_from : VariableBits → VariableBits → ℕ → ℕ → Bool
unfolding same_bit? bit_at
same_from v w i zero = true
same_from v w i (suc n) = same_bit? (bit_at v i) (bit_at w i) && same_from v w (i + 1) n

-- `VariableBits::operator==`.
unfoldable pub same_bits : VariableBits → VariableBits → Bool
unfolding bitwidth same_from same_chunk
same_bits (chunk c) (chunk d) = if c.length == d.length then same_chunk c d else false
same_bits v w = if bitwidth v == bitwidth w then same_from v w 0 (bitwidth v) else false

-- Does `b` come just behind the chunk?
unfoldable pub is_next : VariableChunk → VariableBit → Bool
unfolding same_variable
is_next c b = same_variable b.variable c.variable && b.offset == c.base + c.length

-- `append(const VariableBit)`.
unfoldable pub append_bit : VariableBits → VariableBit → VariableBits
unfolding is_next of_bit
append_bit (chunk c) b =
    if c.length == 0
    then of_bit b
    else if is_next c b
    then chunk (record c { length = c.length + 1 })
    else bits (chunk_bits c ++ b ∷ [])
append_bit (bits l) b = bits (l ++ b ∷ [])

-- The part of `append(const VariableBits &)` below the test for an empty argument.
append_chunks : VariableChunk → VariableChunk → VariableBits
unfolding same_variable
append_chunks c d =
    if c.length == 0
    then chunk d
    else if same_variable c.variable d.variable && d.base == c.base + c.length
    then chunk (record c { length = c.length + d.length })
    else bits (chunk_bits c ++ chunk_bits d)

append_nonempty : VariableBits → VariableBits → VariableBits
unfolding append_chunks unpack
append_nonempty (chunk c) (chunk d) = append_chunks c d
append_nonempty v w = bits (unpack v ++ unpack w)

unfoldable pub append : VariableBits → VariableBits → VariableBits
unfolding append_nonempty is_empty
append v w = if is_empty w then v else append_nonempty v w

-- The constructor from an initializer list: the last part is the lowest.
unfoldable pub of_parts : List VariableBits → VariableBits
unfolding append empty_bits
of_parts [] = empty_bits
of_parts (p ∷ ps) = append (of_parts ps) p

erase_at : List VariableBit → ℕ → Option (List VariableBit)
erase_at [] i = none
erase_at (b ∷ l) zero = some l
erase_at (b ∷ l) (suc i) = do rest ← erase_at l i; some (b ∷ rest)

-- `VariableBits::remove`.
unfoldable pub remove : VariableBits → ℕ → Option VariableBits
unfolding erase_at unpack
remove v i = do l ← erase_at (unpack v) i; some (bits l)

-- The loop of `extract` over a vector, from index `i` on.
unfoldable pub extract_from : List VariableBit → ℕ → ℕ → VariableBits → Option VariableBits
unfolding append_bit
extract_from l i zero ret = some ret
extract_from l i (suc n) ret = do b ← get_elem? l i; extract_from l (i + 1) n (append_bit ret b)

-- `VariableBits::extract`. A chunk is cut without a check; an index past the vector is undefined.
unfoldable pub extract : VariableBits → ℕ → ℕ → Option VariableBits
unfolding extract_from empty_bits
extract (chunk c) base width =
    some (chunk (record { variable = c.variable; base = c.base + base; length = width }))
extract (bits l) base width = extract_from l base width empty_bits

-- What `chunk_spans()` yields: the index of a chunk in the vector, and the chunk.
pub record Span : Type 0 where
  pub start : ℕ
  pub chunk : VariableChunk

-- `iterator_base` on a vector, `fixup_chunk` and `incr`: the spans from the one that `cur` begins,
-- with the bits behind it.
unfoldable pub spans_from : ℕ → VariableChunk → List VariableBit → List Span
unfolding is_next
spans_from offset cur [] = record { start = offset; chunk = cur } ∷ []
spans_from offset cur (b ∷ l) =
    let joined = spans_from offset (record cur { length = cur.length + 1 }) l in
    let parted =
      record { start = offset; chunk = cur }
      ∷ spans_from (offset + cur.length)
          (record { variable = b.variable; base = b.offset; length = 1 }) l in
    if is_next cur b then joined else parted

unfoldable pub chunk_spans : VariableBits → List Span
unfolding spans_from
chunk_spans (chunk c) = if c.length == 0 then [] else record { start = 0; chunk = c } ∷ []
chunk_spans (bits []) = []
chunk_spans (bits (b ∷ l)) =
    spans_from 0 (record { variable = b.variable; base = b.offset; length = 1 }) l

-- `VariableBits::has_dummy_bits`, over the spans of a vector.
unfoldable pub any_dummy : List Span → Bool
unfolding is_dummy
any_dummy [] = false
any_dummy (s ∷ l) = is_dummy s.chunk.variable || any_dummy l

unfoldable pub has_dummy_bits : VariableBits → Bool
unfolding any_dummy chunk_spans is_dummy
has_dummy_bits (chunk c) = is_dummy c.variable
has_dummy_bits (bits l) = any_dummy (chunk_spans (bits l))
