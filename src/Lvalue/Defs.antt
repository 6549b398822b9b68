-- ===== src/Lvalue/Defs.antt =====
-- src/lvalue.cc: the constructors of LValue, and the bits that a static one stands for.
use yosys_slang.Base.{ℕ, ◌+◌, Bool, true, false, ◌&&◌, Option, none, some, log_assert, ◌>>=◌, ◌>>◌}
use yosys_slang.Rtlil.{SigSpec}
use yosys_slang.Variables.{
  Symbol, Variable, VariableBits, variable_bitwidth, of_variable, append, extract, empty_bits,
}
use yosys_slang.Addressing.{Resolver, extract_variables}

mutual
  -- An LValue: its descriptor, `bitsize`, `static_` and `contiguous_slice_`.
  pub data LValue : Type 0 where
    lvalue : Descriptor → ℕ → Bool → Bool → LValue

  pub data Descriptor : Type 0 where
    whole_variable : Variable → Descriptor
    concatenated : LValues → Descriptor
    range_selected : Resolver → LValue → Descriptor
    member_accessed : ℕ → LValue → Descriptor
    memory_written : Variable → SigSpec → Descriptor

  -- The elements, in the order of the source text.
  pub data LValues : Type 0 where
    no_lvalue : LValues
    add_lvalue : LValue → LValues → LValues

abbrev pub bitsize : LValue → ℕ
bitsize (lvalue d size is_static contiguous) = size

unfoldable pub is_static : LValue → Bool
is_static (lvalue d size static_ contiguous) = static_

abbrev pub is_contiguous : LValue → Bool
is_contiguous (lvalue d size static_ contiguous) = contiguous

unfoldable pub size_total : LValues → ℕ
size_total no_lvalue = 0
size_total (add_lvalue e l) = bitsize e + size_total l

unfoldable pub all_static : LValues → Bool
unfolding is_static
all_static no_lvalue = true
all_static (add_lvalue e l) = is_static e && all_static l

unfoldable pub variable : (Symbol → ℕ) → Variable → Option LValue
unfolding variable_bitwidth
variable width_of v = do
  w ← variable_bitwidth width_of v
  some (lvalue (whole_variable v) w true true)

unfoldable pub concatenation : LValues → LValue
unfolding size_total all_static
concatenation elements =
    lvalue (concatenated elements) (size_total elements) (all_static elements) false

unfoldable pub range_select : LValue → Resolver → ℕ → LValue
unfolding is_static
range_select inner resolver size =
    lvalue (range_selected resolver inner) size (is_static inner && resolver.is_static)
      (is_contiguous inner)

unfoldable pub member_access : LValue → ℕ → ℕ → LValue
unfolding is_static
member_access inner base_offset size =
    lvalue (member_accessed base_offset inner) size (is_static inner) (is_contiguous inner)

unfoldable pub memory_write : Variable → SigSpec → ℕ → LValue
memory_write target written_address size =
    lvalue (memory_written target written_address) size false false

module _ (width_of : Symbol → ℕ) where
  unfoldable mutual
    unfolding variable_bitwidth append extract empty_bits of_variable extract_variables

    pub evaluate_vbits : LValue → Option VariableBits
    evaluate_vbits (lvalue d size static_ contiguous) = do
      log_assert static_
      evaluate_descriptor d size

    pub evaluate_descriptor : Descriptor → ℕ → Option VariableBits
    evaluate_descriptor (whole_variable v) size = do
      w ← variable_bitwidth width_of v
      some (of_variable v w)
    evaluate_descriptor (concatenated elements) size = evaluate_elements elements
    evaluate_descriptor (range_selected resolver inner) size = do
      inner_vbits ← evaluate_vbits inner
      extract_variables resolver inner_vbits size
    evaluate_descriptor (member_accessed base_offset inner) size = do
      inner_vbits ← evaluate_vbits inner
      extract inner_vbits base_offset size
    evaluate_descriptor (memory_written target written_address) size = none

    -- The last element comes first.
    pub evaluate_elements : LValues → Option VariableBits
    evaluate_elements no_lvalue = some empty_bits
    evaluate_elements (add_lvalue e l) = do
      ret ← evaluate_elements l
      v ← evaluate_vbits e
      some (append ret v)
