-- ===== src/Addressing/Select.antt =====
-- src/addressing.cc: the resolver, and the selects whose index is a constant.
use yosys_slang.Base.{
  ℕ, ◌-◌, Bool, true, Option, some, List, ◌++◌, ◌==◌, if◌then◌else◌, length, replicate, log_assert,
  ◌>>=◌, ◌>>◌,
}
use yosys_slang.Base.Int.{ℤ, pos, ◌+ℤ◌, ◌-ℤ◌, ◌*ℤ◌, neg, clamp, to_int}
use yosys_slang.Rtlil.{cut}
use yosys_slang.Variables.{VariableBits, dummy, bitwidth, append, extract, of_variable, empty_bits}

-- `slang::ConstantRange`, by what the code reads of it.
pub record Range : Type 0 where
  pub right : ℤ
  pub is_little_endian : Bool

-- The index signal is given by the value that it has (read as a signed number), and by whether it
-- is a defined constant.
pub record Resolver : Type 0 where
  pub base_offset : ℤ
  pub stride : ℕ
  pub raw_value : ℤ
  pub is_static : Bool

-- `interpret_index`: the base offset, and the value of the raw signal. `netlist.Not(signal)` has the
-- value `-index - 1`.
unfoldable pub interpret_index : Range → ℤ → ℤ → ℤ → ℤ × ℤ
interpret_index range index width_down width_up =
    if range.is_little_endian
    then (neg range.right -ℤ width_down +ℤ pos 1, index)
    else (range.right -ℤ width_up +ℤ pos 1 +ℤ pos 1, neg index -ℤ pos 1)

-- The constructor for an element select.
unfoldable pub of_element_select : Range → ℤ → Bool → ℕ → Resolver
unfolding interpret_index
of_element_select range index is_const element_width =
    let (base, raw) = interpret_index range index (pos 1) (pos 1) in
    record { base_offset = base; stride = element_width; raw_value = raw; is_static = is_const }

pub data RangeSelectionKind : Type 0 where
  simple indexed_up indexed_down : RangeSelectionKind

-- The constructor for a range select: `left` is the value of the left operand, `right` the constant
-- on the right.
unfoldable pub of_range_select : Range → RangeSelectionKind → ℤ → ℤ → Bool → ℕ → Resolver
unfolding interpret_index
of_range_select range simple left right is_const stride = record {
  base_offset = if range.is_little_endian then right -ℤ range.right else range.right -ℤ right;
  stride = stride;
  raw_value = pos 0;
  is_static = true;
}
of_range_select range indexed_up left right is_const stride =
    let (base, raw) = interpret_index range left (pos 1) right in
    record { base_offset = base; stride = stride; raw_value = raw; is_static = is_const }
of_range_select range indexed_down left right is_const stride =
    let (base, raw) = interpret_index range left right (pos 1) in
    record { base_offset = base; stride = stride; raw_value = raw; is_static = is_const }

-- `raw_signal.as_const().as_int(true) + base_offset`, a sum of two `int`s, the first of which has the
-- lowest 32 bits of the signal.
unfoldable pub static_offset : Resolver → ℤ
unfolding to_int
static_offset r = to_int (to_int r.raw_value +ℤ r.base_offset)

-- `extract<VariableBits>`.
unfoldable pub extract_variables : Resolver → VariableBits → ℕ → Option VariableBits
unfolding static_offset
extract_variables r val width = do
  log_assert r.is_static
  let offset = static_offset r *ℤ pos r.stride
  let valsize = bitwidth val
  let low =
      append empty_bits (of_variable (dummy (clamp (neg offset) width)) (clamp (neg offset) width))
  let start = clamp offset valsize
  let end = clamp (offset +ℤ pos width) valsize
  middle ← extract val start (end - start)
  let high = clamp (pos width -ℤ (neg offset +ℤ pos valsize)) width
  let ret = append (append low middle) (of_variable (dummy high) high)
  log_assert (bitwidth ret == width)
  some ret

module _ {ℓ} {A : Type ℓ} where
  -- `extract<RTLIL::SigSpec>`, with `x` for the undefined bit.
  unfoldable pub extract_signal : A → Resolver → List A → ℕ → Option (List A)
  unfolding static_offset
  extract_signal x r val width = do
    log_assert r.is_static
    let offset = static_offset r *ℤ pos r.stride
    let valsize = length val
    let start = clamp offset valsize
    let end = clamp (offset +ℤ pos width) valsize
    let high = clamp (pos width -ℤ (neg offset +ℤ pos valsize)) width
    let ret =
        replicate (clamp (neg offset) width) x ++ (cut val start (end - start) ++ replicate high x)
    log_assert (length ret == width)
    some ret

  -- The products and sums are `int`s.
  unfoldable pub embed : A → Resolver → List A → ℕ → Option (List A)
  unfolding static_offset to_int
  embed padding r val output_len = do
    log_assert r.is_static
    let offset = static_offset r
    let up = to_int (offset *ℤ pos r.stride)
    let down = to_int (to_int (neg offset) *ℤ pos r.stride)
    let start = clamp down (length val)
    let end = clamp (to_int (down +ℤ pos output_len)) (length val)
    let high = clamp (to_int (to_int (pos output_len -ℤ up) -ℤ pos (length val))) output_len
    let ret =
        replicate (clamp up output_len) padding
        ++ (cut val start (end - start) ++ replicate high padding)
    log_assert (length ret == output_len)
    some ret
