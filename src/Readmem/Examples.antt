-- ===== src/Readmem/Examples.antt =====
-- Words and comments of a memory file.
use yosys_slang.Base.{
  ℕ, ◌≡◌, refl, true, false, none, some, List, [], ◌∷◌, ◌++◌, length, arith, Bool,
}
use yosys_slang.Variables.{Symbol, static, of_variable}
use yosys_slang.Builder.Gates.Examples.{cells}
use yosys_slang.Procedural.{Process}
use yosys_slang.Readmem.Load.{Command, Loader, next_line, load_token, load_word, is_at_end, is_up}
use yosys_slang.Readmem.Aligned.{IsAligned, IsAfter, load_token-IsAfter}
use yosys_slang.Base.Int.{pos, ◌+ℤ◌, ◌-ℤ◌}
use yosys_slang.Addressing.{Range}
use yosys_slang.Readmem.Flush.{IsPlaced, flush_words_lem}
use yosys_slang.Rtlil.{wire_bit, State, s0, s1, sz}
use yosys_slang.Readmem.Defs.{
  element, address, flush_words, str_to_state_vect, digits, digit_of, data_word, digit_bits,
  digit_bit, most_significant, resize, remove_comments, comment_step, is_pair,
}
use yosys_slang.Readmem.Words.{
  Nibble, known, unknown, Bit, one_bit, floating_bit, nibble_char, nibble_states, bit_char,
  bit_states, print, all_states, str_to_state_vect-print,
}
use yosys_slang.Readmem.Comments.{has_pair, behind, remove_comments_lem}

abbrev nibbles : List Nibble
nibbles = unknown ∷ known true false true true ∷ []

abbrev two_bits : List Bit
two_bits = one_bit ∷ floating_bit ∷ []

-- `dx` and `z1`.
str_to_state_vect-print_example :
    (str_to_state_vect
        (s1 ∷ [])
        (print nibble_char nibbles)
        (length (all_states nibble_states nibbles))
        true
      ≡ some ((s1 ∷ []) ++ all_states nibble_states nibbles))
    × (str_to_state_vect
          (s1 ∷ [])
          (print bit_char two_bits)
          (length (all_states bit_states two_bits))
          false
        ≡ some ((s1 ∷ []) ++ all_states bit_states two_bits))
str_to_state_vect-print_example = str_to_state_vect-print (s1 ∷ []) nibbles two_bits

-- `_z1` in five bits, and a binary word with a 2.
wide_word : str_to_state_vect [] (95 ∷ 122 ∷ 49 ∷ []) 5 false ≡ some (s1 ∷ sz ∷ sz ∷ sz ∷ sz ∷ [])
unfolding str_to_state_vect digits digit_of data_word digit_bits digit_bit most_significant resize
wide_word = refl

bad_word : str_to_state_vect [] (50 ∷ 49 ∷ []) 5 false ≡ none
unfolding str_to_state_vect digits digit_of data_word
bad_word = refl

-- `1/*2*/3`.
remove_comments_lem_example :
    remove_comments false false (49 ∷ 47 ∷ 42 ∷ 50 ∷ 42 ∷ 47 ∷ 51 ∷ [])
    ≡ behind (49 ∷ 32 ∷ 32 ∷ 32 ∷ 32 ∷ 32 ∷ []) (remove_comments false false (51 ∷ []))
unfolding has_pair is_pair
remove_comments_lem_example = remove_comments_lem (49 ∷ []) (42 ∷ 50 ∷ []) (51 ∷ []) refl refl refl

-- `/*/3`.
short_comment :
    remove_comments false false (47 ∷ 42 ∷ 47 ∷ 51 ∷ []) ≡ (32 ∷ 32 ∷ 32 ∷ 51 ∷ [], false)
unfolding remove_comments comment_step is_pair
short_comment = refl

-- Two words at the addresses 1 and 0 of `[1:0]`.
abbrev down_range : Range
down_range = record { right = pos 0; is_little_endian = true }

abbrev two_words : List State
two_words = s1 ∷ s0 ∷ s0 ∷ s1 ∷ []

flush_words_lem_example :
    (base : ℕ) × (value : List State) × (flush_words down_range false 2 (pos 1) two_words
      ≡ some (base, value))
    × (length value ≡ length two_words)
    × IsPlaced down_range false 2 (pos 1) 1 two_words base value
unfolding element address ◌-ℤ◌
flush_words_lem_example =
    flush_words_lem down_range false 1 1 1 0 (pos 1) two_words refl refl refl (omega arith)
      (omega arith)

flushed : flush_words down_range false 2 (pos 1) two_words ≡ some (0, s0 ∷ s1 ∷ s1 ∷ s0 ∷ [])
unfolding flush_words ◌-ℤ◌
flushed = refl

abbrev no_memory : Symbol → Bool
no_memory s = false

abbrev process : Process
process = record {
  initial = true;
  vstate = record { visible_assignments = []; revert = [] };
  actions = [];
  seen_blocking = [];
  seen_nonblocking = [];
  initial_locals_state = [];
  initial_state = [];
  memory_inits = [];
  diags = [];
  escape_stack = [];
  flag_counter = 0;
}

-- `$readmemb` of a memory of two words, from 0 on.
abbrev command : Command
command = record {
  target = of_variable (static 0) 4;
  target_range = down_range;
  word_size = 2;
  is_hex = false;
  start_addr = pos 0;
  finish_addr = pos 1;
  has_finish = false;
}

abbrev loader : Loader
loader = record {
  read = s1 ∷ s0 ∷ [];
  no_jumps = true;
  num_words = 1;
  cursor = pos 1;
  data_first_address = pos 0;
  process = process;
}

abbrev loaded : Loader
loaded = record loader { read = s1 ∷ s0 ∷ s1 ∷ s1 ∷ []; num_words = 2 }

-- The word `11`, and behind it the word `01` of a further line.
load_token-IsAfter_example : IsAfter no_memory cells wire_bit command (next_line loaded)
unfolding load_token load_word str_to_state_vect digits digit_of data_word digit_bits digit_bit
    most_significant resize is_at_end is_up IsAligned address ◌+ℤ◌
load_token-IsAfter_example =
    load_token-IsAfter no_memory cells wire_bit command (49 ∷ 49 ∷ []) loader (next_line loaded)
      (1, refl, refl) refl

past_end :
    load_token no_memory cells wire_bit command (48 ∷ 49 ∷ []) loaded
    ≡ some (next_line (record loaded { read = s1 ∷ s0 ∷ s1 ∷ s1 ∷ s1 ∷ s0 ∷ []; num_words = 3 }))
unfolding load_token load_word str_to_state_vect digits digit_of data_word digit_bits digit_bit
    most_significant resize is_at_end is_up
past_end = refl
