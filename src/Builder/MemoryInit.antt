-- ===== src/Builder/MemoryInit.antt =====
-- src/builder.cc, `add_memory_init`: the initial data of a memory as `$meminit_v2` cells.
use yosys_slang.Base.{
  ℕ, zero, suc, ◌+◌, ◌-◌, ◌*◌, ◌/◌, ◌%◌, ◌<◌, ◌≤◌, ◌≡◌, refl, sym, ap, ◌∙◌, Bool, true, false,
  Option, some, List, [], ◌∷◌, ◌++◌, if◌then◌else◌, ◌==◌, ltb, length, take, replicate, min,
  log_assert, ◌>>=◌, ◌>>◌, arith, All, All-append, length-append, length-take, length-replicate,
}
use yosys_slang.Base.Int.{ℤ, pos, ◌+ℤ◌, ◌-ℤ◌, ◌≤ℤ◌, +ℤ_parts}
use yosys_slang.Rtlil.{State, s0, s1, sx, cut}

-- `RTLIL::Memory`.
pub record Memory : Type 0 where
  pub width : ℕ
  pub size : ℕ
  pub start_offset : ℕ

pub record MeminitCell : Type 0 where
  pub address : ℤ
  pub words : ℕ
  pub content : List State
  pub enable : List State

-- `reverse_data`, over the `n` lowest words.
unfoldable pub reverse_words : ℕ → ℕ → List State → List State
reverse_words width zero orig = []
reverse_words width (suc n) orig = cut orig (n * width) width ++ reverse_words width n orig

unfoldable pub reverse_data : List State → ℕ → Option (List State)
unfolding reverse_words
reverse_data orig width = do
  log_assert (length orig % width == 0)
  some (reverse_words width (length orig / width) orig)

unfoldable pub emit_meminit_cell :
    Memory → ℕ → Bool → List State → List State → Option (List MeminitCell)
unfolding reverse_data
emit_meminit_cell mem word_offset big_endian [] mask = some []
emit_meminit_cell mem word_offset big_endian (d ∷ l) mask = do
  let nwords = length (d ∷ l) / mem.width
  log_assert (length (d ∷ l) % mem.width == 0)
  log_assert (length mask == mem.width)
  content ← if big_endian then reverse_data (d ∷ l) mem.width else some (d ∷ l)
  some (
      record {
        address =
            pos mem.start_offset
            +ℤ (if big_endian
                then pos mem.size -ℤ pos word_offset -ℤ pos nwords
                else pos word_offset);
        words = nwords;
        content = content;
        enable = mask;
      }
      ∷ [])

-- The bits of the first word, where the data do not begin with it: the cells, and how many bits.
unfoldable pub first_word : Memory → ℕ → Bool → List State → Option (List MeminitCell × ℕ)
unfolding emit_meminit_cell
first_word mem bit_offset big_endian content =
    let offset = bit_offset % mem.width in
    let n = min (mem.width - offset) (length content) in
    if offset == 0 then some ([], 0) else (do
      cells ←
          emit_meminit_cell mem (bit_offset / mem.width) big_endian
            (replicate offset sx ++ (take n content ++ replicate (mem.width - offset - n) sx))
            (replicate offset s0 ++ (replicate n s1 ++ replicate (mem.width - offset - n) s0))
      some (cells, n))

-- The whole words behind `processed` bits.
unfoldable pub whole_words : Memory → ℕ → Bool → List State → ℕ → Option (List MeminitCell × ℕ)
unfolding emit_meminit_cell
whole_words mem bit_offset big_endian content processed =
    let n = (length content - processed) / mem.width * mem.width in
    if ltb processed (length content)
    then (do
      log_assert ((bit_offset + processed) % mem.width == 0)
      cells ←
          emit_meminit_cell mem ((bit_offset + processed) / mem.width) big_endian
            (cut content processed n) (replicate mem.width s1)
      some (cells, processed + n))
    else some ([], processed)

-- The bits behind the last whole word.
unfoldable pub last_word : Memory → ℕ → Bool → List State → ℕ → Option (List MeminitCell × ℕ)
unfolding emit_meminit_cell
last_word mem bit_offset big_endian content processed =
    let n = length content - processed in
    if ltb processed (length content)
    then (do
      log_assert (ltb n mem.width)
      cells ←
          emit_meminit_cell mem (bit_offset / mem.width) big_endian
            (take n content ++ replicate (mem.width - n) sx)
            (replicate n s1 ++ replicate (mem.width - n) s0)
      some (cells, processed + n))
    else some ([], processed)

-- `add_memory_init`, of a memory that exists.
unfoldable pub add_memory_init : Memory → ℕ → Bool → List State → Option (List MeminitCell)
unfolding first_word whole_words last_word
add_memory_init mem bit_offset big_endian [] = some []
add_memory_init mem bit_offset big_endian (d ∷ l) = do
  first ← first_word mem bit_offset big_endian (d ∷ l)
  middle ← whole_words mem bit_offset big_endian (d ∷ l) first.1
  last ← last_word mem bit_offset big_endian (d ∷ l) middle.1
  log_assert (last.1 == length (d ∷ l))
  some (first.0 ++ (middle.0 ++ last.0))

div_lem : (n r w : ℕ) → r < w → (n * w + r) / w ≡ n
div_lem n r w h = grind arith

mod_lem : (n w : ℕ) → 0 < w → (n * w) % w ≡ 0
mod_lem n w h = grind arith

-- The cell ends at or before word `e`.
abbrev pub EndsBy : ℕ → MeminitCell → Type 0
EndsBy e c = c.address +ℤ pos c.words ≤ℤ pos e

test_same : (m n : ℕ) → m ≡ n → (m == n) ≡ true
test_same m n e = ground arith

whole_test : (x n w : ℕ) → 0 < w → x ≡ n * w → ((x % w == 0) ≡ true) × (x / w ≡ n)
whole_test x n w h e = (
  test_same (x % w) 0 (ap (λ y. y % w) e ∙ mod_lem n w h),
  ap (λ y. y / w) {x = x} {y = n * w + 0} (omega (arith, e)) ∙ div_lem n 0 w h,
)

test_less : (m n : ℕ) → m < n → ltb m n ≡ true
test_less m n e = ground arith

ends : (s o q n : ℕ) → q ≡ n → (pos s +ℤ pos o) +ℤ pos q ≤ℤ pos (s + o + n)
ends s o q n e = omega (arith, +ℤ_parts (pos s) (pos o), +ℤ_parts (pos s +ℤ pos o) (pos q))

EndsBy-weaken : (a b : ℕ) (l : List MeminitCell) → a ≤ b → All (EndsBy a) l → All (EndsBy b) l
EndsBy-weaken a b [] h x = tt
EndsBy-weaken a b (c ∷ l) h x = (omega arith, EndsBy-weaken a b l h x.1)

-- A cell in little endian order, of whole words.
emit_lem :
    (mem : Memory) (word_offset n : ℕ) (content mask : List State)
    → 0 < mem.width
    → length content ≡ n * mem.width
    → length mask ≡ mem.width
    → (cells : List MeminitCell) × (emit_meminit_cell mem word_offset false content mask
        ≡ some cells)
      × All (EndsBy (mem.start_offset + word_offset + n)) cells
unfolding emit_meminit_cell
emit_lem mem word_offset n [] mask w e f = ([], refl, tt)
emit_lem mem word_offset n (d ∷ l) mask w e f =
    let (t, q) = whole_test (length (d ∷ l)) n mem.width w e in
    let cell : MeminitCell = record {
      address = pos mem.start_offset +ℤ pos word_offset;
      words = length (d ∷ l) / mem.width;
      content = d ∷ l;
      enable = mask;
    } in
    (
      cell ∷ [],
      rw (t, test_same (length mask) mem.width f) refl,
      (ends mem.start_offset word_offset (length (d ∷ l) / mem.width) n q, tt),
    )

positive : (n w : ℕ) → 0 < n → 0 < w → 0 < n * w
positive n w h k = grind arith

module _ (mem : Memory) (k n r : ℕ) (content : List State) (w : 0 < mem.width)
    (e : length content ≡ n * mem.width + r) where
  first_lem : first_word mem (k * mem.width) false content ≡ some ([], 0)
  unfolding first_word
  first_lem = rw (mod_lem k mem.width w) refl

  whole_lem :
      0 < n
      → r < mem.width
      → (cells : List MeminitCell) × (whole_words mem (k * mem.width) false content 0
          ≡ some (cells, n * mem.width))
        × All (EndsBy (mem.start_offset + k + n)) cells
  unfolding whole_words
  whole_lem p h =
      let whole : List State = take (n * mem.width) content in
      let (cells, f, b) =
        emit_lem mem k n whole (replicate mem.width s1) w
          (length-take (n * mem.width) content ∙ omega (arith, e))
          (length-replicate mem.width s1) in
      (
        cells,
        rw
            (
              test_less 0 (length content) (omega (arith, e, positive n mem.width p w)),
              test_same ((k * mem.width + 0) % mem.width) 0 (
                  ap (λ y. y % mem.width) {x = k * mem.width + 0} {y = k * mem.width} (omega arith)
                  ∙ mod_lem k mem.width w),
              div_lem k 0 mem.width w,
              ap (λ y. y / mem.width) {x = length content - 0} {y = n * mem.width + r}
                    (omega (arith, e))
                  ∙ div_lem n r mem.width h,
              f,
            )
            (ap (λ y. some (cells, y)) {x = 0 + n * mem.width} {y = n * mem.width} (omega arith)),
        b,
      )

  rest_lem : length content - n * mem.width ≡ r
  rest_lem = omega (arith, e)

  last_lem :
      0 < r
      → r < mem.width
      → (cells : List MeminitCell) × (last_word mem (k * mem.width) false content (n * mem.width)
          ≡ some (cells, n * mem.width + r))
        × All (EndsBy (mem.start_offset + k + 1)) cells
  unfolding last_word
  last_lem p h =
      let low : List State = take r content ++ replicate (mem.width - r) sx in
      let mask : List State = replicate r s1 ++ replicate (mem.width - r) s0 in
      let (cells, f, b) =
        emit_lem mem k 1 low mask w
          (length-append (take r content) (replicate (mem.width - r) sx)
            ∙ omega (arith, length-take r content, length-replicate (mem.width - r) sx, e))
          (length-append (replicate r s1) (replicate (mem.width - r) s0)
            ∙ omega (arith, length-replicate r s1, length-replicate (mem.width - r) s0)) in
      (
        cells,
        rw
            (
              test_less (n * mem.width) (length content) (omega (arith, e)),
              rest_lem,
              test_less r mem.width h,
              ap (λ y. y / mem.width) {x = k * mem.width} {y = k * mem.width + 0} (omega arith)
                  ∙ div_lem k 0 mem.width w,
              f,
            )
            refl,
        b,
      )

-- Data that begin with a word, in little endian order, and end with a part of a word behind at
-- least one whole word: no assertion fails, and every cell that is made ends at or before the
-- last whole word, so none holds the place of the bits behind it.
pub add_memory_init_short :
    (mem : Memory) (k n r : ℕ) (content : List State)
    → 0 < mem.width
    → 0 < n
    → 0 < r
    → r < mem.width
    → length content ≡ n * mem.width + r
    → (cells : List MeminitCell) × (add_memory_init mem (k * mem.width) false content ≡ some cells)
      × All (EndsBy (mem.start_offset + k + n)) cells
unfolding add_memory_init
add_memory_init_short mem k n r [] w a b c e = absurd (omega (arith, e))
add_memory_init_short mem k n r (d ∷ l) w a b c e =
    let (whole, f, x) = whole_lem mem k n r (d ∷ l) w e a c in
    let (low, g, y) = last_lem mem k n r (d ∷ l) w e b c in
    (
      whole ++ low,
      rw
          (
            first_lem mem k n r (d ∷ l) w e,
            f,
            g,
            test_same (n * mem.width + r) (length (d ∷ l)) (sym e),
          )
          refl,
      All-append (EndsBy (mem.start_offset + k + n)) whole low x
          (EndsBy-weaken (mem.start_offset + k + 1) (mem.start_offset + k + n) low (omega arith) y),
    )
