-- ===== src/Readmem/Words.antt =====
-- src/slang_frontend.cc: str_to_state_vect reads what is printed.
use yosys_slang.Base.{
  ℕ, ◌+◌, ◌≡◌, refl, ap, ◌∙◌, arith, Bool, true, false, ◌||◌, Option, none, some, List, [], ◌∷◌,
  ◌++◌, if◌then◌else◌, ltb, length, replicate, take_all, append-nil, ◌>>=◌,
}
use mathlib.Core.List.{reverse, reverse-append}
use yosys_slang.Rtlil.{State, s0, s1, sx, sz, same_state}
use yosys_slang.Readmem.Defs.{
  digit_of, push_digit, digits, data_word, digit_bits, digit_bit, resize, most_significant,
  str_to_state_vect,
}

-- A hexadecimal digit by its bits, the lowest first, and a binary one.
pub data Nibble : Type 0 where
  known : Bool → Bool → Bool → Bool → Nibble
  unknown floating : Nibble

pub data Bit : Type 0 where
  zero_bit one_bit unknown_bit floating_bit : Bit

abbrev pub state_of : Bool → State
state_of true = s1
state_of false = s0

abbrev pub weight : Bool → ℕ → ℕ
weight true n = n
weight false n = 0

abbrev pub nibble_states : Nibble → List State
nibble_states (known a b c d) = state_of a ∷ state_of b ∷ state_of c ∷ state_of d ∷ []
nibble_states unknown = sx ∷ sx ∷ sx ∷ sx ∷ []
nibble_states floating = sz ∷ sz ∷ sz ∷ sz ∷ []

abbrev pub char_of : ℕ → ℕ
char_of n = if ltb n 10 then 48 + n else 87 + n

abbrev pub nibble_char : Nibble → ℕ
nibble_char (known a b c d) = char_of (weight a 1 + weight b 2 + weight c 4 + weight d 8)
nibble_char unknown = 120
nibble_char floating = 122

abbrev pub bit_states : Bit → List State
bit_states zero_bit = s0 ∷ []
bit_states one_bit = s1 ∷ []
bit_states unknown_bit = sx ∷ []
bit_states floating_bit = sz ∷ []

abbrev pub bit_char : Bit → ℕ
bit_char zero_bit = 48
bit_char one_bit = 49
bit_char unknown_bit = 120
bit_char floating_bit = 122

-- The text of digits, the lowest of which comes first in the list and last in the text.
unfoldable pub print : {D : Type 0} → (D → ℕ) → List D → List ℕ
print char [] = []
print char (d ∷ l) = print char l ++ (char d ∷ [])

unfoldable pub all_states : {D : Type 0} → (D → List State) → List D → List State
all_states states [] = []
all_states states (d ∷ l) = states d ++ all_states states l

push_digit-append : (o : Option ℕ) (a b : List ℕ) → push_digit o (a ++ b) ≡ push_digit o a ++ b
push_digit-append none a b = refl
push_digit-append (some d) a b = refl

digits-append : (a b : List ℕ) → digits (a ++ b) ≡ digits a ++ digits b
unfolding digits
digits-append [] b = refl
digits-append (c ∷ a) b =
    ap (push_digit (digit_of c)) (digits-append a b)
    ∙ push_digit-append (digit_of c) (digits a) (digits b)

module _ {D : Type 0} (char : D → ℕ) (value : D → ℕ) (states : D → List State) (base n : ℕ)
    (read_char : (d : D) → digit_of (char d) ≡ some (value d))
    (read_value : (d : D) (l : List ℕ)
      → data_word base n (value d ∷ l) ≡ (data_word base n l >>= λ r. some (states d ++ r))) where
  reverse-digits :
      (d : D) (l : List D)
      → reverse (digits (print char (d ∷ l))) ≡ value d ∷ reverse (digits (print char l))
  unfolding print digits
  reverse-digits d l =
      ap reverse (digits-append (print char l) (char d ∷ []))
      ∙ ap (λ o. reverse (digits (print char l) ++ push_digit o [])) (read_char d)
      ∙ reverse-append (digits (print char l)) (value d ∷ [])

  data_word-print :
      (l : List D) → data_word base n (reverse (digits (print char l))) ≡ some (all_states states l)
  unfolding data_word print digits all_states
  data_word-print [] = refl
  data_word-print (d ∷ l) =
      ap (data_word base n) (reverse-digits d l)
      ∙ read_value d (reverse (digits (print char l)))
      ∙ ap (λ o. o >>= λ r. some (states d ++ r)) (data_word-print l)

abbrev nibble_value : Nibble → ℕ
nibble_value (known a b c d) = weight a 1 + weight b 2 + weight c 4 + weight d 8
nibble_value unknown = 240
nibble_value floating = 241

abbrev bit_value : Bit → ℕ
bit_value zero_bit = 0
bit_value one_bit = 1
bit_value unknown_bit = 240
bit_value floating_bit = 241

nibble-char : (d : Nibble) → digit_of (nibble_char d) ≡ some (nibble_value d)
unfolding digit_of
nibble-char (known true true true true) = refl
nibble-char (known true true true false) = refl
nibble-char (known true true false true) = refl
nibble-char (known true true false false) = refl
nibble-char (known true false true true) = refl
nibble-char (known true false true false) = refl
nibble-char (known true false false true) = refl
nibble-char (known true false false false) = refl
nibble-char (known false true true true) = refl
nibble-char (known false true true false) = refl
nibble-char (known false true false true) = refl
nibble-char (known false true false false) = refl
nibble-char (known false false true true) = refl
nibble-char (known false false true false) = refl
nibble-char (known false false false true) = refl
nibble-char (known false false false false) = refl
nibble-char unknown = refl
nibble-char floating = refl

nibble-value :
    (d : Nibble) (l : List ℕ)
    → data_word 16 4 (nibble_value d ∷ l) ≡ (data_word 16 4 l >>= λ r. some (nibble_states d ++ r))
unfolding data_word digit_bits digit_bit
nibble-value (known true true true true) l = refl
nibble-value (known true true true false) l = refl
nibble-value (known true true false true) l = refl
nibble-value (known true true false false) l = refl
nibble-value (known true false true true) l = refl
nibble-value (known true false true false) l = refl
nibble-value (known true false false true) l = refl
nibble-value (known true false false false) l = refl
nibble-value (known false true true true) l = refl
nibble-value (known false true true false) l = refl
nibble-value (known false true false true) l = refl
nibble-value (known false true false false) l = refl
nibble-value (known false false true true) l = refl
nibble-value (known false false true false) l = refl
nibble-value (known false false false true) l = refl
nibble-value (known false false false false) l = refl
nibble-value unknown l = refl
nibble-value floating l = refl

bit-char : (d : Bit) → digit_of (bit_char d) ≡ some (bit_value d)
unfolding digit_of
bit-char zero_bit = refl
bit-char one_bit = refl
bit-char unknown_bit = refl
bit-char floating_bit = refl

bit-value :
    (d : Bit) (l : List ℕ)
    → data_word 2 1 (bit_value d ∷ l) ≡ (data_word 2 1 l >>= λ r. some (bit_states d ++ r))
unfolding data_word digit_bits digit_bit
bit-value zero_bit l = refl
bit-value one_bit l = refl
bit-value unknown_bit l = refl
bit-value floating_bit l = refl

resize_same : (s : State) (l : List State) → resize (length l) s l ≡ l
unfolding resize
resize_same s l =
    rw (take_all (length l) l (omega arith))
      (ap (λ n. l ++ replicate n s) {y = 0} (omega arith) ∙ append-nil l)

read_word :
    (states word : List State) (str : List ℕ) (is_hex : Bool)
    → data_word (if is_hex then 16 else 2) (if is_hex then 4 else 1) (reverse (digits str))
      ≡ some word
    → str_to_state_vect states str (length word) is_hex ≡ some (states ++ word)
unfolding str_to_state_vect
read_word states word str is_hex e =
    let msb = most_significant word in
    ap
      (λ o. o >>= λ w. some (
        states
        ++ resize (length word)
            (if same_state (most_significant w) s0 || same_state (most_significant w) s1
              then s0
              else most_significant w)
            w))
      e
    ∙ ap (λ l. some (states ++ l))
        (resize_same (if same_state msb s0 || same_state msb s1 then s0 else msb) word)

-- A word that is printed, in hexadecimal or in binary digits, each of which is known, unknown or of high
-- impedance, is read back as the states of its digits, which follow the states that were read before, for
-- a memory as wide as the word.
pub str_to_state_vect-print :
    (states : List State) (nibbles : List Nibble) (bits : List Bit)
    → (str_to_state_vect states
          (print nibble_char nibbles)
          (length (all_states nibble_states nibbles))
          true
        ≡ some (states ++ all_states nibble_states nibbles))
      × (str_to_state_vect states (print bit_char bits) (length (all_states bit_states bits)) false
          ≡ some (states ++ all_states bit_states bits))
str_to_state_vect-print states nibbles bits = (
  read_word states (all_states nibble_states nibbles) (print nibble_char nibbles) true (
      data_word-print nibble_char nibble_value nibble_states 16 4 nibble-char nibble-value nibbles),
  read_word states (all_states bit_states bits) (print bit_char bits) false
      (data_word-print bit_char bit_value bit_states 2 1 bit-char bit-value bits),
)
