-- ===== src/Readmem/Defs.antt =====
-- src/slang_frontend.cc: str_to_state_vect, and the removal of block comments in handle_readmem. What is
-- behind a string's terminating zero is not part of it.
use yosys_slang.Base.{
  ℕ, zero, suc, ◌+◌, ◌-◌, ◌/◌, ◌%◌, ◌^◌, Bool, true, false, not, ◌&&◌, ◌||◌, Option, none, some,
  List, [], ◌∷◌, ◌++◌, if◌then◌else◌, ltb, leb, ◌==◌, length, take, replicate, log_assert, ◌>>=◌,
  ◌>>◌,
}
use mathlib.Core.List.{reverse}
use yosys_slang.Base.Int.{ℤ, pos, negsuc, ◌+ℤ◌, ◌-ℤ◌}
use yosys_slang.Addressing.{Range}
use yosys_slang.Builder.MemoryInit.{reverse_data}
use yosys_slang.Rtlil.{State, s0, s1, sx, sz, same_state}

-- The number of a digit: 0xf0 is an unknown one and 0xf1 one of high impedance.
unfoldable pub digit_of : ℕ → Option ℕ
digit_of c =
    if leb 48 c && leb c 57
    then some (c - 48)
    else if leb 97 c && leb c 102
    then some (10 + c - 97)
    else if leb 65 c && leb c 70
    then some (10 + c - 65)
    else if c == 120 || c == 88
    then some 240
    else if c == 122 || c == 90
    then some 241
    else none

abbrev pub push_digit : Option ℕ → List ℕ → List ℕ
push_digit none l = l
push_digit (some d) l = d ∷ l

unfoldable pub digits : List ℕ → List ℕ
unfolding digit_of
digits [] = []
digits (c ∷ str) = push_digit (digit_of c) (digits str)

unfoldable pub digit_bit : ℕ → ℕ → State
digit_bit d i =
    if d == 240 then sx else if d == 241 then sz else if d / 2 ^ i % 2 == 1 then s1 else s0

unfoldable pub digit_bits : ℕ → ℕ → ℕ → List State
unfolding digit_bit
digit_bits d i zero = []
digit_bits d i (suc n) = digit_bit d i ∷ digit_bits d (i + 1) n

-- The loop over the digits, the last one first; none is the code's result 1.
unfoldable pub data_word : ℕ → ℕ → List ℕ → Option (List State)
unfolding digit_bits
data_word base bits_per_digit [] = some []
data_word base bits_per_digit (d ∷ l) =
    let rest = data_word base bits_per_digit l in
    if ltb (base - 1) d && ltb d 240
    then none
    else (do r ← rest; some (digit_bits d 0 bits_per_digit ++ r))

-- `data_word.back()`.
unfoldable pub most_significant : List State → State
most_significant [] = s0
most_significant (s ∷ []) = s
most_significant (s ∷ t ∷ l) = most_significant (t ∷ l)

-- `data_word.resize(n, s)`.
unfoldable pub resize : ℕ → State → List State → List State
resize n s l = take n l ++ replicate (n - length l) s

unfoldable pub str_to_state_vect : List State → List ℕ → ℕ → Bool → Option (List State)
unfolding digits data_word most_significant resize
str_to_state_vect states str mem_width is_hex = do
  word ← data_word (if is_hex then 16 else 2) (if is_hex then 4 else 1) (reverse (digits str))
  let msb = most_significant word
  some
      (states ++ resize mem_width (if same_state msb s0 || same_state msb s1 then s0 else msb) word)

-- `line.compare(i, 2, ...) == 0`, of the character at i and what follows.
unfoldable pub is_pair : ℕ → ℕ → ℕ → List ℕ → Bool
is_pair a b c [] = false
is_pair a b c (d ∷ l) = c == a && d == b

-- One round of the loop over a line: the character that is left, whether a comment is open behind it, and
-- whether the next character is overwritten.
unfoldable pub comment_step : Bool → ℕ → List ℕ → ℕ × Bool × Bool
unfolding is_pair
comment_step in_comment c l =
    if in_comment && is_pair 42 47 c l
    then (32, false, true)
    else if in_comment || is_pair 47 42 c l
    then (32, true, false)
    else (c, false, false)

-- The loop over a line, with whether its first character is overwritten.
unfoldable pub remove_comments : Bool → Bool → List ℕ → List ℕ × Bool
unfolding comment_step
remove_comments in_comment overwritten [] = ([], in_comment)
remove_comments in_comment overwritten (c ∷ l) =
    let step = comment_step in_comment (if overwritten then 32 else c) l in
    let rest = remove_comments step.1 step.2 l in (step.0 ∷ rest.0, rest.1)

-- The element of the target that has an address.
unfoldable pub element : Range → ℤ → ℤ
element range hdl_address =
    if range.is_little_endian then hdl_address -ℤ range.right else range.right -ℤ hdl_address

-- The address of word `k` from the first one on, upwards or downwards.
unfoldable pub address : ℤ → Bool → ℕ → ℤ
address first up k = if up then first +ℤ pos k else first -ℤ pos k

unfoldable pub to_uint32 : ℤ → ℕ
to_uint32 (pos n) = n % 2 ^ 32
to_uint32 (negsuc n) = 2 ^ 32 - 1 - n % 2 ^ 32

unfoldable pub needs_reversal : Range → Bool → Bool
needs_reversal range up = (not up && range.is_little_endian) || (up && not range.is_little_endian)

-- `flush_data`: the element where the words that were read go, and their bits. There is at least one.
unfoldable pub flush_words : Range → Bool → ℕ → ℤ → List State → Option (ℕ × List State)
unfolding element address to_uint32 needs_reversal reverse_data
flush_words range up word_size first read = do
  log_assert (length read % word_size == 0)
  value ← if needs_reversal range up then reverse_data read word_size else some read
  let hdl_base =
      if needs_reversal range up then address first up (length read / word_size - 1) else first
  some (to_uint32 (element range hdl_base), value)
