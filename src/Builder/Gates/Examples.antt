-- ===== src/Builder/Gates/Examples.antt =====
-- The gates at concrete signals, where a cell's output is the constant that the cell computes.
use yosys_slang.Base.{
  ℕ, zero, suc, ◌+◌, ◌*◌, ◌/◌, ◌%◌, ◌^◌, ◌≡◌, refl, ap, Bool, true, false, ◌&&◌, ◌||◌, some, List,
  [], ◌∷◌, map, if◌then◌else◌, length, arith, ◌==◌,
}
use native.Mathlib.Nat.{pow-suc}
use yosys_slang.Rtlil.{s0, s1, sx, sz, SigBit, SigSpec, state, wire_bit, is_const_bit, is_def_bit}
use yosys_slang.Builder.ThreeValued.{IsValuation}
use yosys_slang.Builder.Gates.{Cells, eq_wildcard, logic_and, logic_or, bwmux, shift, count_ones}
use yosys_slang.Builder.Gates.Meaning.{
  MeetsCells, HasNoUnknown, same_values, any_true, choose, window, to_int, bits_number,
  meets_pattern, eq_wildcard_lem, logic_lem, bwmux_lem, shift_lem,
}
use yosys_slang.Builder.Gates.Ones.{MeetsAdd, IsSum, ones, count_ones_lem}

abbrev pub all_ones : SigBit → Bool
all_ones (state s0) = false
all_ones _ = true

all_ones-IsValuation : IsValuation all_ones
all_ones-IsValuation = record { of_s0 = refl; of_s1 = refl }

abbrev pub of_bool : Bool → SigBit
of_bool true = state s1
of_bool false = state s0

of_bool-val : (b : Bool) → all_ones (of_bool b) ≡ b
of_bool-val true = refl
of_bool-val false = refl

of_bools-val : (l : List Bool) → map all_ones (map of_bool l) ≡ l
of_bools-val [] = refl
of_bools-val (b ∷ l) = rw (of_bool-val b, of_bools-val l) refl

abbrev pub values : SigSpec → List Bool
values = map all_ones

-- The `w` lowest bits of a number.
abbrev pub encode : ℕ → ℕ → SigSpec
encode zero n = []
encode (suc w) n = of_bool (n % 2 == 1) ∷ encode w (n / 2)

abbrev pub cells : Cells
cells = record {
  eq = λ a b. of_bool (same_values (values a) (values b));
  const_eq = λ a b. of_bool (same_values (values a) (values b));
  logic_and = λ a b. of_bool (any_true (values a) && any_true (values b));
  logic_or = λ a b. of_bool (any_true (values a) || any_true (values b));
  reduce_bool = λ a. of_bool (any_true (values a));
  const_reduce_bool = λ a. of_bool (any_true (values a));
  mux = λ a b s. if all_ones s then b else a;
  bwmux = λ a b s. map of_bool (choose (values a) (values b) (values s));
  shift = λ a a_signed b b_signed n.
      map of_bool (window (values a) a_signed (to_int (values b) b_signed) n);
  const_shift = λ a a_signed b b_signed n.
      map of_bool (window (values a) a_signed (to_int (values b) b_signed) n);
  as_int = λ b signed. to_int (values b) signed;
  add = λ a b w. encode w (bits_number (values a) + bits_number (values b));
  const_add = λ a b w. encode w (bits_number (values a) + bits_number (values b));
}

cells-MeetsCells : MeetsCells cells all_ones
cells-MeetsCells = record {
  eq_law = λ a b n. of_bool-val (same_values (values a) (values b));
  const_eq_law = λ a b n d e. of_bool-val (same_values (values a) (values b));
  logic_and_law = λ a b. of_bool-val (any_true (values a) && any_true (values b));
  logic_or_law = λ a b. of_bool-val (any_true (values a) || any_true (values b));
  bwmux_law = λ a b s n m. of_bools-val (choose (values a) (values b) (values s));
  shift_law = λ a b a_signed b_signed n.
      of_bools-val (window (values a) a_signed (to_int (values b) b_signed) n);
  const_shift_law = λ a b a_signed b_signed n d e.
      of_bools-val (window (values a) a_signed (to_int (values b) b_signed) n);
  as_int_law = λ b signed d. refl;
}

length-encode : (w n : ℕ) → length (encode w n) ≡ w
length-encode zero n = refl
length-encode (suc w) n = ap suc (length-encode w (n / 2))

of_bool-def : (b : Bool) → is_const_bit (of_bool b) ≡ true → is_def_bit (of_bool b) ≡ true
of_bool-def true e = refl
of_bool-def false e = refl

encode-HasNoUnknown : (w n : ℕ) → HasNoUnknown (encode w n)
encode-HasNoUnknown zero n = tt
encode-HasNoUnknown (suc w) n = (of_bool-def (n % 2 == 1), encode-HasNoUnknown w (n / 2))

halve : (n x k m : ℕ) → x + k * m ≡ n / 2 → (if n % 2 == 1 then 1 else 0) + 2 * x + k * (m * 2) ≡ n
halve n x k m e = grind arith

encode_number : (w n : ℕ) → (k : ℕ) × (bits_number (values (encode w n)) + k * 2 ^ w ≡ n)
encode_number zero n = (n, omega arith)
encode_number (suc w) n =
    let (k, e) = encode_number w (n / 2) in
    (
      k,
      rw (of_bool-val (n % 2 == 1), pow-suc 2 w)
          (halve n (bits_number (values (encode w (n / 2)))) k (2 ^ w) e),
    )

encode-IsSum :
    (a b : SigSpec) (w : ℕ)
    → IsSum all_ones w a b (encode w (bits_number (values a) + bits_number (values b)))
encode-IsSum a b w =
    let n = bits_number (values a) + bits_number (values b) in
    (length-encode w n, encode-HasNoUnknown w n, encode_number w n)

cells-MeetsAdd : MeetsAdd cells all_ones
cells-MeetsAdd = record { add_law = encode-IsSum; const_add_law = λ a b w d e. encode-IsSum a b w }

abbrev signal : SigSpec
signal = wire_bit 0 0 ∷ state s0 ∷ state s1 ∷ []

signal-HasNoUnknown : HasNoUnknown signal
signal-HasNoUnknown = ((λ e. cc), ((λ e. refl), ((λ e. refl), tt)))

abbrev pattern_bits : SigSpec
pattern_bits = state s1 ∷ state sx ∷ state sz ∷ []

eq_wildcard_lem_example :
    (y : SigBit) × (eq_wildcard cells signal pattern_bits ≡ some (y ∷ []))
    × (all_ones y ≡ meets_pattern all_ones signal pattern_bits)
eq_wildcard_lem_example =
    eq_wildcard_lem cells all_ones all_ones-IsValuation cells-MeetsCells signal pattern_bits refl
      signal-HasNoUnknown (refl, (refl, (refl, tt)))

logic_lem_example :
    ((y : SigBit) × (logic_and cells signal signal ≡ y ∷ [])
      × (all_ones y ≡ (any_true (values signal) && any_true (values signal))))
    × ((y : SigBit) × (logic_or cells signal signal ≡ y ∷ [])
        × (all_ones y ≡ (any_true (values signal) || any_true (values signal))))
logic_lem_example =
    logic_lem cells all_ones all_ones-IsValuation cells-MeetsCells signal signal (omega arith)
      (omega arith)

bwmux_lem_example :
    (y : SigSpec) × (bwmux cells signal pattern_bits signal ≡ some y)
    × (values y ≡ choose (values signal) (values pattern_bits) (values signal))
bwmux_lem_example =
    bwmux_lem cells all_ones all_ones-IsValuation cells-MeetsCells signal pattern_bits signal refl
      refl signal-HasNoUnknown

abbrev amount : SigSpec
amount = state s1 ∷ state s1 ∷ []

-- A signed amount of -1.
shift_lem_example :
    (y : SigSpec) × (shift cells signal true amount true 5 ≡ some y)
    × (values y ≡ window (values signal) true (to_int (values amount) true) 5)
shift_lem_example =
    shift_lem cells all_ones all_ones-IsValuation cells-MeetsCells signal amount true true 5
      (omega arith) signal-HasNoUnknown ((λ e. refl), ((λ e. refl), tt))

count_ones_lem_example :
    (length (count_ones cells signal 3) ≡ 3)
    × ((k : ℕ) × (bits_number (values (count_ones cells signal 3)) + k * 2 ^ 3
          ≡ ones (values signal)))
count_ones_lem_example =
    count_ones_lem cells all_ones all_ones-IsValuation cells-MeetsAdd signal 2 signal-HasNoUnknown
