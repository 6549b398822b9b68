-- ===== src/Builder/Gates.antt =====
-- src/builder.cc: the methods of RTLILBuilder that make a cell unless the result can be read off the
-- arguments. The cells and the evaluation of constants are Yosys's: each is a function of its inputs
-- that gives the signal of its output.
pub mod Meaning
pub mod Ones
pub mod Examples
use yosys_slang.Base.{
  ℕ, zero, suc, ◌+◌, ◌-◌, ◌*◌, ◌/◌, ◌%◌, ◌^◌, Bool, true, false, ◌&&◌, ◌||◌, Option, none, some,
  List, [], ◌∷◌, ◌++◌, map, if◌then◌else◌, ◌==◌, ltb, leb, length, take, replicate, get_or,
  log_assert, ◌>>=◌, ◌>>◌,
}
use yosys_slang.Base.Int.{ℤ, pos, negsuc, ◌+ℤ◌}
use yosys_slang.Rtlil.{
  SigBit, SigSpec, s0, s1, sx, sz, state, is_state, is_fully_const, is_fully_def, is_fully_zero,
  is_fully_ones, cut,
}

pub record Cells : Type 0 where
  pub eq : SigSpec → SigSpec → SigBit
  pub const_eq : SigSpec → SigSpec → SigBit
  pub logic_and : SigSpec → SigSpec → SigBit
  pub logic_or : SigSpec → SigSpec → SigBit
  pub reduce_bool : SigSpec → SigBit
  pub const_reduce_bool : SigSpec → SigBit
  pub mux : SigSpec → SigSpec → SigBit → SigSpec
  pub bwmux : SigSpec → SigSpec → SigSpec → SigSpec
  pub shift : SigSpec → Bool → SigSpec → Bool → ℕ → SigSpec
  pub const_shift : SigSpec → Bool → SigSpec → Bool → ℕ → SigSpec
  -- `SigSpec::as_int`.
  pub as_int : SigSpec → Bool → ℤ
  pub add : SigSpec → SigSpec → ℕ → SigSpec
  pub const_add : SigSpec → SigSpec → ℕ → SigSpec

-- `SigSpec::extend_u0`.
unfoldable pub extend_u0 : SigSpec → ℕ → SigSpec
extend_u0 l n = take n l ++ replicate (n - length l) (state s0)

module _ (cells : Cells) where
  unfoldable pub reduce_bool : SigSpec → SigSpec
  reduce_bool a =
      if is_fully_const a
      then cells.const_reduce_bool a ∷ []
      else if length a == 1
      then take 1 a
      else cells.reduce_bool a ∷ []

  unfoldable pub eq_signal : SigSpec → SigSpec → SigSpec
  eq_signal a b =
      if is_fully_const a && is_fully_const b then cells.const_eq a b ∷ [] else cells.eq a b ∷ []

  -- The loop of `EqWildcard`: the bits of both sides where `b` is neither x nor z.
  unfoldable pub keep_known : SigSpec → SigSpec → SigSpec × SigSpec
  keep_known (a ∷ l) (b ∷ r) =
      let rest = keep_known l r in
      if is_state sx b || is_state sz b then rest else (a ∷ rest.0, b ∷ rest.1)
  keep_known _ _ = ([], [])

  unfoldable pub eq_wildcard : SigSpec → SigSpec → Option SigSpec
  unfolding keep_known eq_signal
  eq_wildcard a b = do
    log_assert (length a == length b)
    log_assert (is_fully_const b)
    some (eq_signal (keep_known a b).0 (keep_known a b).1)

  unfoldable pub logic_and : SigSpec → SigSpec → SigSpec
  logic_and a b =
      if is_fully_zero a || is_fully_zero b
      then state s0 ∷ []
      else if is_fully_def a && length b == 1
      then b
      else if is_fully_def b && length a == 1
      then a
      else cells.logic_and a b ∷ []

  unfoldable pub logic_or : SigSpec → SigSpec → SigSpec
  logic_or a b =
      if is_fully_ones a || is_fully_ones b
      then state s1 ∷ []
      else if is_fully_zero a && is_fully_zero b
      then state s0 ∷ []
      else cells.logic_or a b ∷ []

  unfoldable pub mux : SigSpec → SigSpec → SigBit → Option SigSpec
  mux a b s = do
    log_assert (length a == length b)
    some (if is_state s0 s then a else if is_state s1 s then b else cells.mux a b s)

  -- The loop of `Bwmux` for a constant `s`.
  unfoldable pub select_bits : SigSpec → SigSpec → SigSpec → SigSpec
  select_bits (a ∷ l) (b ∷ r) (s ∷ t) =
      (if is_state s0 s then a else if is_state s1 s then b else state sx) ∷ select_bits l r t
  select_bits _ _ _ = []

  unfoldable pub bwmux : SigSpec → SigSpec → SigSpec → Option SigSpec
  unfolding select_bits
  bwmux a b s = do
    log_assert (length a == length b)
    log_assert (length a == length s)
    some (if is_fully_const s then select_bits a b s else cells.bwmux a b s)

  -- The bit that the loop of `Shift` appends for index `i`; `msb` is the highest bit of `a`.
  unfoldable pub shifted_bit : SigSpec → Bool → ℤ → SigBit
  shifted_bit a a_signed (negsuc i) = state s0
  shifted_bit a a_signed (pos i) =
      if a_signed && leb (length a) i
      then get_or a (length a - 1) (state s0)
      else if leb (length a) i
      then state s0
      else get_or a i (state s0)

  unfoldable pub shift_from : SigSpec → Bool → ℤ → ℕ → SigSpec
  unfolding shifted_bit
  shift_from a a_signed i zero = []
  shift_from a a_signed i (suc n) = shifted_bit a a_signed i ∷ shift_from a a_signed (i +ℤ pos 1) n

  unfoldable pub shift : SigSpec → Bool → SigSpec → Bool → ℕ → Option SigSpec
  unfolding shift_from
  shift a a_signed b b_signed result_width =
      if is_fully_const a && is_fully_const b
      then some (cells.const_shift a a_signed b b_signed result_width)
      else if is_fully_const b && ltb (length b) 24
      then (do
        log_assert (ltb 0 (length a))
        some (shift_from a a_signed (cells.as_int b b_signed) result_width))
      else some (cells.shift a a_signed b b_signed result_width)

  -- `Biop(ID($add), a, b, false, false, width)`.
  unfoldable pub biop_add : SigSpec → SigSpec → ℕ → SigSpec
  biop_add a b width =
      if is_fully_const a && is_fully_const b
      then cells.const_add a b width
      else cells.add a b width

  -- One level of the tree of adders of `CountOnes`, made of the level below it.
  unfoldable pub next_level : ℕ → List SigSpec → List SigSpec
  unfolding biop_add extend_u0
  next_level w [] = []
  next_level w (a ∷ []) = a ∷ []
  next_level w (a ∷ b ∷ l) =
      let sum = biop_add a b w in
      let extended = extend_u0 sum w in
      (if ltb (length sum) w then extended else sum) ∷ next_level w l

  -- `while (curr_level.size() > 1)`.
  unfoldable pub levels : ℕ → ℕ → List SigSpec → List SigSpec
  unfolding next_level
  levels w zero l = l
  levels w (suc fuel) l =
      let next = levels w fuel (next_level w l) in if ltb 1 (length l) then next else l

  unfoldable pub first_of : List SigSpec → SigSpec
  first_of [] = []
  first_of (a ∷ l) = a

  unfoldable pub count_ones : SigSpec → ℕ → SigSpec
  unfolding levels first_of extend_u0
  count_ones sig result_width =
      extend_u0
        (if length sig == 0
          then state s0 ∷ []
          else if length sig == 1
          then sig
          else first_of
              (levels result_width (length sig) (map (λ b. extend_u0 (b ∷ []) result_width) sig)))
        result_width
