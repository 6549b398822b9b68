-- ===== src/Readmem/Load.antt =====
-- src/slang_frontend.cc, handle_readmem: the loop over the words of a memory file. The arguments of the call,
-- which slang evaluates, are those of a command.
use yosys_slang.Base.{
  ℕ, suc, ◌+◌, ◌-◌, ◌*◌, ◌%◌, ◌^◌, Bool, true, false, not, ◌&&◌, ◌||◌, Option, none, some, List, [],
  ◌∷◌, ◌++◌, map, if◌then◌else◌, ltb, leb, ◌==◌, length, ◌>>=◌,
}
use yosys_slang.Base.Int.{ℤ, pos, negsuc, pos_part, neg_part, ◌-ℤ◌, neg, ltb_ℤ, eqb_ℤ}
use yosys_slang.Rtlil.{State, state, SigBit}
use yosys_slang.Variables.{Symbol, VariableBits, extract}
use yosys_slang.Builder.Gates.{Cells}
use yosys_slang.Addressing.{Range}
use yosys_slang.Procedural.{Process, do_simple_assign}
use yosys_slang.Readmem.Defs.{digit_of, str_to_state_vect, remove_comments, flush_words, address}

pub record Command : Type 0 where
  pub target : VariableBits
  pub target_range : Range
  pub word_size : ℕ
  pub is_hex : Bool
  pub start_addr : ℤ
  pub finish_addr : ℤ
  pub has_finish : Bool

pub record Loader : Type 0 where
  pub read : List State
  pub no_jumps : Bool
  pub num_words : ℕ
  pub cursor : ℤ
  pub data_first_address : ℤ
  pub process : Process

pub data Diag : Type 0 where
  invalid_address address_outside_of_range bad_binary_digit words_range_mismatch : Diag

-- What a word of the file leads to: the next one is read, the rest of the line is not, or the load ends.
pub data Outcome : Type 0 where
  next_word next_line : Loader → Outcome
  failed : Diag → Loader → Outcome

-- Whether the addresses increase.
unfoldable pub is_up : Command → Bool
is_up c = ltb_ℤ c.start_addr c.finish_addr

-- `ConstantRange::containsPoint`.
unfoldable pub contains_point : ℤ → ℤ → ℤ → Bool
contains_point left right p =
    (not (ltb_ℤ p left) && not (ltb_ℤ right p)) || (not (ltb_ℤ p right) && not (ltb_ℤ left p))

-- A number in hexadecimal digits, behind one that was read; none where there are other characters.
abbrev hex_digit : ℕ → Option ℕ → Option ℕ
hex_digit n none = none
hex_digit n (some d) = if ltb d 16 then some (n * 16 + d) else none

unfoldable pub hex_number : ℕ → List ℕ → Option ℕ
unfolding digit_of
hex_number n [] = some n
hex_number n (c ∷ l) = do m ← hex_digit n (digit_of c); hex_number m l

-- Without the digits `0x`, which `strtol` skips where a digit follows.
unfoldable pub without_prefix : List ℕ → List ℕ
without_prefix (c ∷ x ∷ d ∷ l) = if c == 48 && (x == 120 || x == 88) then d ∷ l else c ∷ x ∷ d ∷ l
without_prefix l = l

unfoldable pub magnitude : List ℕ → Option ℕ
unfolding without_prefix hex_number
magnitude [] = none
magnitude (c ∷ l) = hex_number 0 (without_prefix (c ∷ l))

-- The `long` of a sign and a magnitude, which saturates, as an `int32_t`.
unfoldable pub to_int32 : Bool → ℕ → ℤ
unfolding neg
to_int32 is_negative n =
    let m =
      (if is_negative
        then (if ltb (2 ^ 63) n then 2 ^ 63 else n)
        else (if ltb n (2 ^ 63) then n else 2 ^ 63 - 1))
      % 2 ^ 32 in
    let u = (if is_negative then 2 ^ 32 - m else m) % 2 ^ 32 in
    if ltb u (2 ^ 31) then pos u else negsuc (2 ^ 32 - 1 - u)

-- `strtol(nptr, &endptr, 16)`, where it reads the whole of a word.
unfoldable pub strtol : List ℕ → Option ℤ
unfolding magnitude to_int32
strtol [] = none
strtol (c ∷ l) =
    if c == 45
    then (do n ← magnitude l; some (to_int32 true n))
    else (do n ← magnitude (if c == 43 then l else c ∷ l); some (to_int32 false n))

abbrev pub is_empty {ℓ} : {A : Type ℓ} → List A → Bool
is_empty [] = true
is_empty (x ∷ l) = false

unfoldable pub is_space : ℕ → Bool
is_space c = c == 32 || (leb 9 c && leb c 13)

abbrev push_token : List ℕ → List (List ℕ) → List (List ℕ)
push_token [] l = l
push_token (c ∷ t) l = (c ∷ t) ∷ l

-- `iss >> token`, behind the characters of a token.
unfoldable pub tokens : List ℕ → List ℕ → List (List ℕ)
unfolding is_space
tokens token [] = push_token token []
tokens token (c ∷ l) =
    let rest = tokens (if is_space c then [] else token ++ (c ∷ [])) l in
    push_token (if is_space c then token else []) rest

module _ (is_inferred_memory : Symbol → Bool) (cells : Cells) (wire : Symbol → ℕ → SigBit)
    (c : Command) where
  -- The assignment of the words that were read.
  unfoldable pub assign_words : Loader → Option Process
  unfolding flush_words extract do_simple_assign is_up
  assign_words l = do
    (base, value) ← flush_words c.target_range (is_up c) c.word_size l.data_first_address l.read
    lhs ← extract c.target (base * c.word_size) (length l.read)
    do_simple_assign is_inferred_memory cells wire lhs (map state value) true l.process

  -- `flush_data`.
  unfoldable pub flush_data : Loader → Option Loader
  unfolding assign_words
  flush_data l = do p ← assign_words l; some (record l { read = []; process = p })

  unfoldable pub flush_rest : Loader → Option Loader
  unfolding flush_data
  flush_rest l = if is_empty l.read then some l else flush_data l

  -- The address of a token with `@`.
  unfoldable pub jump : ℤ → Loader → Option Loader
  unfolding flush_rest
  jump next_addr l = elim (eqb_ℤ next_addr l.cursor) [
    | true ↦ some (record l { no_jumps = false })
    | false ↦ (do
      m ← flush_rest l
      some (record m { cursor = next_addr; data_first_address = next_addr; no_jumps = false }))
  ]

  unfoldable pub load_address : Option ℤ → Loader → Option Outcome
  unfolding jump contains_point
  load_address none l = some (failed invalid_address l)
  load_address (some a) l = elim (contains_point c.start_addr c.finish_addr a) [
    | true ↦ do m ← jump a l; some (next_word m)
    | false ↦ some (failed address_outside_of_range l)
  ]

  -- The cursor is at the last address or behind it.
  unfoldable pub is_at_end : ℤ → Bool
  unfolding is_up
  is_at_end cursor =
      eqb_ℤ cursor c.finish_addr
      || (is_up c && ltb_ℤ c.finish_addr cursor)
      || (not (is_up c) && ltb_ℤ cursor c.finish_addr)

  unfoldable pub load_word : Option (List State) → Loader → Outcome
  unfolding is_at_end is_up address
  load_word none l = failed bad_binary_digit l
  load_word (some read) l =
      let m = record l { read = read; num_words = suc l.num_words } in
      elim (is_at_end l.cursor) [
        | true ↦ next_line m
        | false ↦ next_word (record m { cursor = address l.cursor (is_up c) 1 })
      ]

  -- One token.
  unfoldable pub load_token : List ℕ → Loader → Option Outcome
  unfolding load_address strtol load_word str_to_state_vect
  load_token [] l = some (load_word (str_to_state_vect l.read [] c.word_size c.is_hex) l)
  load_token (t ∷ token) l = elim (t == 64) [
    | true ↦ load_address (strtol token) l
    | false ↦ some (load_word (str_to_state_vect l.read (t ∷ token) c.word_size c.is_hex) l)
  ]

  unfoldable pub is_line_comment : List ℕ → Bool
  is_line_comment (a ∷ b ∷ l) = a == 47 && b == 47
  is_line_comment l = false

  -- What an outcome leads to, where the rest of the line is `f`.
  abbrev pub continue_line : (Loader → Option Outcome) → Outcome → Option Outcome
  continue_line f (next_word l) = f l
  continue_line f (next_line l) = some (next_line l)
  continue_line f (failed d l) = some (failed d l)

  unfoldable pub load_line : List (List ℕ) → Loader → Option Outcome
  unfolding load_token is_line_comment
  load_line [] l = some (next_line l)
  load_line (t ∷ r) l = elim (is_line_comment t) [
    | true ↦ some (next_line l)
    | false ↦ do o ← load_token t l; continue_line (load_line r) o
  ]

  -- The end of the file: the rest of the words, and whether the number of words is as given.
  unfoldable pub load_end : Loader → Option (List Diag × Process)
  unfolding flush_rest
  load_end l = do
    m ← flush_rest l
    let expected =
        suc (pos_part (c.finish_addr -ℤ c.start_addr) + neg_part (c.finish_addr -ℤ c.start_addr))
    some (
      if c.has_finish && m.no_jumps && not (m.num_words == expected)
          then words_range_mismatch ∷ []
          else [],
      m.process,
    )

  abbrev pub continue_file :
      (Loader → Option (List Diag × Process)) → Outcome → Option (List Diag × Process)
  continue_file f (next_word l) = f l
  continue_file f (next_line l) = f l
  continue_file f (failed d l) = some (d ∷ [], l.process)

  unfoldable pub load_lines : Bool → List (List ℕ) → Loader → Option (List Diag × Process)
  unfolding load_end load_line remove_comments tokens
  load_lines in_comment [] l = load_end l
  load_lines in_comment (line ∷ lines) l = do
    let (text, still_in) = remove_comments in_comment false line
    o ← load_line (tokens [] text) l
    continue_file (load_lines still_in lines) o

  -- `handle_readmem`, of the lines of the file.
  unfoldable pub load : List (List ℕ) → Process → Option (List Diag × Process)
  unfolding load_lines
  load lines p = load_lines false lines (record {
    read = [];
    no_jumps = true;
    num_words = 0;
    cursor = c.start_addr;
    data_first_address = c.start_addr;
    process = p;
  })
