-- ===== src/Lvalue/Examples.antt =====
-- `{a[2:1], b}`, and an element behind the end of `b`.
use yosys_slang.Base.{suc, zero, ℕ, ◌≡◌, refl, arith, true, some, map}
use yosys_slang.Base.Int.{pos}
use yosys_slang.Variables.{Symbol, variable_bitwidth, VariableBits, static, unpack, bitwidth}
use yosys_slang.Addressing.{Resolver}
use yosys_slang.Addressing.Static.{visible}
use yosys_slang.Lvalue.Defs.{
  LValue, lvalue, whole_variable, add_lvalue, no_lvalue, member_access, range_select, concatenation,
  bitsize, is_static, size_total, all_static, evaluate_vbits,
}
use yosys_slang.Lvalue.Meaning.{places, IsFormed, evaluate_vbits_lem}

abbrev widths : Symbol → ℕ
widths zero = 4
widths (suc s) = 2

abbrev four_bits : LValue
four_bits = lvalue (whole_variable (static 0)) 4 true true

abbrev two_bits : LValue
two_bits = lvalue (whole_variable (static 1)) 2 true true

abbrev selected : Resolver
selected = record { base_offset = pos 0; stride = 1; raw_value = pos 1; is_static = true }

abbrev target : LValue
target = concatenation (
    add_lvalue (member_access four_bits 1 2)
      (add_lvalue (range_select two_bits selected 2) no_lvalue))

evaluate_vbits_lem_example :
    (ret : VariableBits) × (evaluate_vbits widths target ≡ some ret)
    × (places target ≡ some (map visible (unpack ret)))
    × (bitwidth ret ≡ bitsize target)
unfolding variable_bitwidth concatenation member_access range_select is_static size_total all_static
    IsFormed
evaluate_vbits_lem_example =
    evaluate_vbits_lem widths target (((refl, omega arith, refl), ((refl, refl), tt)), refl, refl)
      refl
