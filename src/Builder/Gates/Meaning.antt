-- ===== src/Builder/Gates/Meaning.antt =====
-- src/builder.cc: the values of the signals that the methods of RTLILBuilder give, whether they
-- make a cell or not.
use yosys_slang.Base.{
  ℕ, zero, suc, ◌+◌, ◌-◌, ◌*◌, ◌^◌, ◌<◌, ◌≡◌, refl, sym, ap, ◌∙◌, Bool, true, false, not, ◌&&◌,
  ◌||◌, some, List, [], ◌∷◌, map, if◌then◌else◌, ◌==◌, ltb, length, get_or, Bool-cases, inl, inr,
  arith, All, length-map,
}
use yosys_slang.Base.Int.{ℤ, pos, negsuc, ◌+ℤ◌, sub_ℕ}
use yosys_slang.Rtlil.{
  SigBit, SigSpec, State, s0, s1, sx, sz, state, wire_bit, is_state, is_const_bit, is_def_bit,
  is_fully_const, is_fully_def, is_fully_zero, is_fully_ones,
}
use yosys_slang.Builder.ThreeValued.{IsValuation}
use yosys_slang.Builder.Gates.{
  Cells, keep_known, eq_signal, eq_wildcard, logic_and, logic_or, select_bits, bwmux, shifted_bit,
  shift_from, shift,
}

-- Constant bits are 0 or 1.
abbrev pub HasNoUnknown : SigSpec → Type 0
HasNoUnknown = All (λ b. is_const_bit b ≡ true → is_def_bit b ≡ true)

-- Each bit of a pattern is 0, 1, x or z.
abbrev pub IsPattern : SigSpec → Type 0
IsPattern = All (λ b. (is_def_bit b || is_state sx b || is_state sz b) ≡ true)

abbrev pub same_bool : Bool → Bool → Bool
same_bool true b = b
same_bool false b = not b

abbrev pub same_values : List Bool → List Bool → Bool
same_values (a ∷ l) (b ∷ r) = same_bool a b && same_values l r
same_values _ _ = true

abbrev pub any_true : List Bool → Bool
any_true [] = false
any_true (b ∷ l) = b || any_true l

abbrev pub choose : List Bool → List Bool → List Bool → List Bool
choose (a ∷ l) (b ∷ r) (s ∷ t) = (if s then b else a) ∷ choose l r t
choose _ _ _ = []

abbrev pub bits_number : List Bool → ℕ
bits_number [] = 0
bits_number (b ∷ l) = (if b then 1 else 0) + 2 * bits_number l

-- The integer that bits stand for, in two's complement if they are signed.
abbrev pub to_int : List Bool → Bool → ℤ
to_int l signed =
    sub_ℕ (bits_number l) (if signed && get_or l (length l - 1) false then 2 ^ length l else 0)

-- The bit at a place, with the sign or zeros above and zeros below.
abbrev pub extended : List Bool → Bool → ℤ → Bool
extended l signed (negsuc i) = false
extended l signed (pos i) =
    if ltb i (length l) then get_or l i false else signed && get_or l (length l - 1) false

-- The `n` bits from a place on.
abbrev pub window : List Bool → Bool → ℤ → ℕ → List Bool
window l signed i zero = []
window l signed i (suc n) = extended l signed i ∷ window l signed (i +ℤ pos 1) n

-- What Yosys documents of its cells and of its evaluation of constants that have no unknown bits.
pub record MeetsCells (cells : Cells) (val : SigBit → Bool) : Type 0 where
  pub eq_law :
      (a b : SigSpec)
      → length a ≡ length b
      → val (cells.eq a b) ≡ same_values (map val a) (map val b)
  pub const_eq_law :
      (a b : SigSpec)
      → length a ≡ length b
      → is_fully_def a ≡ true
      → is_fully_def b ≡ true
      → val (cells.const_eq a b) ≡ same_values (map val a) (map val b)
  pub logic_and_law :
      (a b : SigSpec) → val (cells.logic_and a b) ≡ (any_true (map val a) && any_true (map val b))
  pub logic_or_law :
      (a b : SigSpec) → val (cells.logic_or a b) ≡ (any_true (map val a) || any_true (map val b))
  pub bwmux_law :
      (a b s : SigSpec)
      → length a ≡ length b
      → length a ≡ length s
      → map val (cells.bwmux a b s) ≡ choose (map val a) (map val b) (map val s)
  pub shift_law :
      (a b : SigSpec) (a_signed b_signed : Bool) (n : ℕ)
      → map val (cells.shift a a_signed b b_signed n)
        ≡ window (map val a) a_signed (to_int (map val b) b_signed) n
  pub const_shift_law :
      (a b : SigSpec) (a_signed b_signed : Bool) (n : ℕ)
      → is_fully_def a ≡ true
      → is_fully_def b ≡ true
      → map val (cells.const_shift a a_signed b b_signed n)
        ≡ window (map val a) a_signed (to_int (map val b) b_signed) n
  pub as_int_law :
      (b : SigSpec) (signed : Bool)
      → is_fully_def b ≡ true
      → cells.as_int b signed ≡ to_int (map val b) signed

pattern_def :
    (b : SigBit) (rest : Bool)
    → (is_def_bit b || is_state sx b || is_state sz b) ≡ true
    → (is_state sx b || is_state sz b) ≡ false
    → rest ≡ true
    → (is_def_bit b && rest) ≡ true
pattern_def b rest p e r = ground arith

pub const-def : (l : SigSpec) → HasNoUnknown l → is_fully_const l ≡ true → is_fully_def l ≡ true
const-def [] h e = refl
const-def (b ∷ l) h e = ground (arith, h.0, const-def l h.1)

pub both_left : (b c : Bool) → (b && c) ≡ true → b ≡ true
both_left b c e = ground arith

pub both_right : (b c : Bool) → (b && c) ≡ true → c ≡ true
both_right b c e = ground arith

and_true : (b : Bool) → (b && true) ≡ b
and_true b = ground arith

test_same : (m n : ℕ) → m ≡ n → (m == n) ≡ true
test_same m n e = ground arith

test_less : (m n : ℕ) → m < n → ltb m n ≡ true
test_less m n e = ground arith

one_of_test : (n : ℕ) → (n == 1) ≡ true → n ≡ 1
one_of_test n e = ground arith

pattern-const : (b : SigSpec) → IsPattern b → is_fully_const b ≡ true
pattern-const [] p = refl
pattern-const (b ∷ l) p = ground (arith, p.0, pattern-const l p.1)

state_is : (s : State) (b : SigBit) → is_state s b ≡ true → b ≡ state s
state_is s (state t) e = ground arith
state_is s (wire_bit w i) e = cc

def_zero :
    (b : SigBit) (rest : Bool)
    → (is_def_bit b && rest) ≡ true
    → is_state s1 b ≡ false
    → is_state s0 b ≡ true
def_zero b rest e t = ground arith

rest_nonzero :
    (b : SigBit) (rest : Bool)
    → (is_state s0 b && rest) ≡ false
    → is_state s0 b ≡ true
    → rest ≡ false
rest_nonzero b rest e t = ground arith

-- The bits of `a` meet the pattern `b`, where x and z meet anything.
abbrev pub meets_pattern : (SigBit → Bool) → SigSpec → SigSpec → Bool
meets_pattern val (a ∷ l) (b ∷ r) =
    (is_state sx b || is_state sz b || same_bool (val a) (val b)) && meets_pattern val l r
meets_pattern val _ _ = true

module _ (cells : Cells) (val : SigBit → Bool) (v : IsValuation val)
    (laws : MeetsCells cells val) where
  keep_known_lem :
      (a b : SigSpec)
      → HasNoUnknown a
      → IsPattern b
      → HasNoUnknown (keep_known cells a b).0
        × (is_fully_def (keep_known cells a b).1 ≡ true)
        × (length (keep_known cells a b).0 ≡ length (keep_known cells a b).1)
        × (same_values (map val (keep_known cells a b).0) (map val (keep_known cells a b).1)
            ≡ meets_pattern val a b)
  unfolding keep_known
  keep_known_lem [] b h p = (tt, refl, refl, refl)
  keep_known_lem (a ∷ l) [] h p = (tt, refl, refl, refl)
  keep_known_lem (a ∷ l) (b ∷ r) h p =
      let (x, y, n, z) = keep_known_lem l r h.1 p.1 in
      elim (Bool-cases (is_state sx b || is_state sz b)) [
        | inl e ↦ rw e (x, y, n, z)
        | inr e ↦
            rw e
              ((h.0, x), pattern_def b _ p.0 e y, ap suc n, ap (◌&&◌ (same_bool (val a) (val b))) z)
      ]

  -- The comparison succeeds, and its one bit says whether `a` meets the pattern: `b` has the bits
  -- 0, 1, x and z, a constant bit of `a` is 0 or 1, the two have one width, and the cells are
  -- what Yosys documents.
  pub eq_wildcard_lem :
      (a b : SigSpec)
      → length a ≡ length b
      → HasNoUnknown a
      → IsPattern b
      → (y : SigBit) × (eq_wildcard cells a b ≡ some (y ∷ [])) × (val y ≡ meets_pattern val a b)
  unfolding eq_wildcard eq_signal
  eq_wildcard_lem a b n h p =
      let (x, y, m, z) = keep_known_lem a b h p in
      let k = keep_known cells a b in
      elim (Bool-cases (is_fully_const k.0 && is_fully_const k.1)) [
        | inl e ↦ (
          cells.const_eq k.0 k.1,
          rw (test_same _ _ n, pattern-const b p, e) refl,
          laws.const_eq_law k.0 k.1 m (const-def k.0 x (both_left _ _ e)) y ∙ z,
        )
        | inr e ↦ (
          cells.eq k.0 k.1,
          rw (test_same _ _ n, pattern-const b p, e) refl,
          laws.eq_law k.0 k.1 m ∙ z,
        )
      ]

  zero_any : (a : SigSpec) → is_fully_zero a ≡ true → any_true (map val a) ≡ false
  zero_any [] e = refl
  zero_any (b ∷ l) e = rw (state_is s0 b (both_left _ _ e), v.of_s0) (zero_any l (both_right _ _ e))

  def_any :
      (a : SigSpec) → is_fully_def a ≡ true → is_fully_zero a ≡ false → any_true (map val a) ≡ true
  def_any [] e z = cc
  def_any (b ∷ l) e z = elim (Bool-cases (is_state s1 b)) [
    | inl t ↦ rw (state_is s1 b t, v.of_s1) refl
    | inr t ↦
        rw (state_is s0 b (def_zero b _ e t), v.of_s0)
          (def_any l (both_right _ _ e) (rest_nonzero b _ z (def_zero b _ e t)))
  ]

  ones_any : (a : SigSpec) → 0 < length a → is_fully_ones a ≡ true → any_true (map val a) ≡ true
  ones_any [] n e = absurd (omega arith)
  ones_any (b ∷ l) n e = rw (state_is s1 b (both_left _ _ e), v.of_s1) refl

  any_single :
      (a : SigSpec) → length a ≡ 1 → (y : SigBit) × (a ≡ y ∷ []) × (val y ≡ any_true (map val a))
  any_single [] e = absurd (omega arith)
  any_single (b ∷ []) e = (b, refl, ground arith)
  any_single (b ∷ c ∷ l) e = absurd (omega arith)

  logic_and_lem :
      (a b : SigSpec)
      → (y : SigBit) × (logic_and cells a b ≡ y ∷ [])
        × (val y ≡ (any_true (map val a) && any_true (map val b)))
  unfolding logic_and
  logic_and_lem a b = elim (Bool-cases (is_fully_zero a)) [
    | inl e ↦ (state s0, rw e refl, rw (zero_any a e) v.of_s0)
    | inr e ↦ elim (Bool-cases (is_fully_zero b)) [
      | inl f ↦ (state s0, rw (e, f) refl, rw (zero_any b f, v.of_s0) (ground arith))
      | inr f ↦ elim (Bool-cases (is_fully_def a && length b == 1)) [
        | inl g ↦
            let (y, t, u) =
              any_single b
                (one_of_test (length b) (both_right (is_fully_def a) (length b == 1) g)) in
            (y, rw (e, f, g) t, rw (def_any a (both_left (is_fully_def a) (length b == 1) g) e) u)
        | inr g ↦ elim (Bool-cases (is_fully_def b && length a == 1)) [
          | inl k ↦
              let (y, t, u) =
                any_single a
                  (one_of_test (length a) (both_right (is_fully_def b) (length a == 1) k)) in
              (
                y,
                rw (e, f, g, k) t,
                rw (def_any b (both_left (is_fully_def b) (length a == 1) k) f)
                    (u ∙ sym (and_true (any_true (map val a)))),
              )
          | inr k ↦ (cells.logic_and a b, rw (e, f, g, k) refl, laws.logic_and_law a b)
        ]
      ]
    ]
  ]

  logic_or_lem :
      (a b : SigSpec)
      → 0 < length a
      → 0 < length b
      → (y : SigBit) × (logic_or cells a b ≡ y ∷ [])
        × (val y ≡ (any_true (map val a) || any_true (map val b)))
  unfolding logic_or
  logic_or_lem a b n m = elim (Bool-cases (is_fully_ones a)) [
    | inl e ↦ (state s1, rw e refl, rw (ones_any a n e) v.of_s1)
    | inr e ↦ elim (Bool-cases (is_fully_ones b)) [
      | inl f ↦ (state s1, rw (e, f) refl, rw (ones_any b m f, v.of_s1) (ground arith))
      | inr f ↦ elim (Bool-cases (is_fully_zero a && is_fully_zero b)) [
        | inl g ↦ (
          state s0,
          rw (e, f, g) refl,
          rw
              (
                zero_any a (both_left (is_fully_zero a) (is_fully_zero b) g),
                zero_any b (both_right (is_fully_zero a) (is_fully_zero b) g),
              )
              v.of_s0,
        )
        | inr g ↦ (cells.logic_or a b, rw (e, f, g) refl, laws.logic_or_law a b)
      ]
    ]
  ]

  -- The conjunction and the disjunction of two operands have one bit, which says whether both, or
  -- either, have a bit that is 1. Neither operand is empty, and the cells are what Yosys
  -- documents.
  pub logic_lem :
      (a b : SigSpec)
      → 0 < length a
      → 0 < length b
      → ((y : SigBit) × (logic_and cells a b ≡ y ∷ [])
          × (val y ≡ (any_true (map val a) && any_true (map val b))))
        × ((y : SigBit) × (logic_or cells a b ≡ y ∷ [])
            × (val y ≡ (any_true (map val a) || any_true (map val b))))
  logic_lem a b n m = (logic_and_lem a b, logic_or_lem a b n m)

  select_bits_lem :
      (a b s : SigSpec)
      → is_fully_def s ≡ true
      → map val (select_bits cells a b s) ≡ choose (map val a) (map val b) (map val s)
  unfolding select_bits
  select_bits_lem [] b s e = refl
  select_bits_lem (a ∷ l) [] s e = refl
  select_bits_lem (a ∷ l) (b ∷ r) [] e = refl
  select_bits_lem (a ∷ l) (b ∷ r) (s ∷ t) e = elim (Bool-cases (is_state s1 s)) [
    | inl x ↦
        rw
          (
            state_is s1 s x,
            v.of_s1,
            select_bits_lem l r t (both_right (is_def_bit s) (is_fully_def t) e),
          )
          refl
    | inr x ↦
        rw
          (
            state_is s0 s (def_zero s (is_fully_def t) e x),
            v.of_s0,
            select_bits_lem l r t (both_right (is_def_bit s) (is_fully_def t) e),
          )
          refl
  ]

  -- The bitwise selection gives a result, each bit of which has the value that the bit of `s`
  -- selects. The three operands have one width, a constant bit of `s` is 0 or 1, and the cell is
  -- what Yosys documents.
  pub bwmux_lem :
      (a b s : SigSpec)
      → length a ≡ length b
      → length a ≡ length s
      → HasNoUnknown s
      → (y : SigSpec) × (bwmux cells a b s ≡ some y)
        × (map val y ≡ choose (map val a) (map val b) (map val s))
  unfolding bwmux
  bwmux_lem a b s n m h = elim (Bool-cases (is_fully_const s)) [
    | inl e ↦ (
      select_bits cells a b s,
      rw (test_same _ _ n, test_same _ _ m, e) refl,
      select_bits_lem a b s (const-def s h e),
    )
    | inr e ↦
        (cells.bwmux a b s, rw (test_same _ _ n, test_same _ _ m, e) refl, laws.bwmux_law a b s n m)
  ]

  get_or-map : (l : SigSpec) (i : ℕ) → val (get_or l i (state s0)) ≡ get_or (map val l) i false
  get_or-map [] i = v.of_s0
  get_or-map (b ∷ l) zero = refl
  get_or-map (b ∷ l) (suc i) = get_or-map l i

  shifted_bit_lem :
      (a : SigSpec) (signed : Bool) (i : ℤ)
      → val (shifted_bit cells a signed i) ≡ extended (map val a) signed i
  unfolding shifted_bit
  shifted_bit_lem a signed (negsuc i) = v.of_s0
  shifted_bit_lem a signed (pos i) =
      ground (arith, v.of_s0, length-map val a, get_or-map a i, get_or-map a (length a - 1))

  shift_from_lem :
      (a : SigSpec) (signed : Bool) (i : ℤ) (n : ℕ)
      → map val (shift_from cells a signed i n) ≡ window (map val a) signed i n
  unfolding shift_from
  shift_from_lem a signed i zero = refl
  shift_from_lem a signed i (suc n) =
      rw (shifted_bit_lem a signed i, shift_from_lem a signed (i +ℤ pos 1) n) refl

  -- A shift gives a result, whose bits are those of the operand from the place on that the second
  -- operand says, as a two's complement integer if it is signed: with the sign, or zeros, above
  -- and zeros below. The operand is not empty, constant bits are 0 or 1, and the cells are what
  -- Yosys documents.
  pub shift_lem :
      (a b : SigSpec) (a_signed b_signed : Bool) (n : ℕ)
      → 0 < length a
      → HasNoUnknown a
      → HasNoUnknown b
      → (y : SigSpec) × (shift cells a a_signed b b_signed n ≡ some y)
        × (map val y ≡ window (map val a) a_signed (to_int (map val b) b_signed) n)
  unfolding shift
  shift_lem a b a_signed b_signed n w h k =
      elim (Bool-cases (is_fully_const a && is_fully_const b)) [
        | inl e ↦ (
          cells.const_shift a a_signed b b_signed n,
          rw e refl,
          laws.const_shift_law a b a_signed b_signed n
              (const-def a h (both_left (is_fully_const a) (is_fully_const b) e))
              (const-def b k (both_right (is_fully_const a) (is_fully_const b) e)),
        )
        | inr e ↦ elim (Bool-cases (is_fully_const b && ltb (length b) 24)) [
          | inl f ↦ (
            shift_from cells a a_signed (cells.as_int b b_signed) n,
            rw (e, f, test_less 0 (length a) w) refl,
            shift_from_lem a a_signed (cells.as_int b b_signed) n
                ∙ ap (λ i. window (map val a) a_signed i n)
                    (laws.as_int_law b b_signed
                      (const-def b k (both_left (is_fully_const b) (ltb (length b) 24) f))),
          )
          | inr f ↦ (
            cells.shift a a_signed b b_signed n,
            rw (e, f) refl,
            laws.shift_law a b a_signed b_signed n,
          )
        ]
      ]
