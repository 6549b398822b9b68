-- ===== src/Statements/Executor/Design.antt =====
-- src/statements.h: StatementExecutor's parameters, which are what the expressions of the design evaluate to and the
-- AST's facts about a symbol, a subroutine or a statement, and the tables of its handlers.
use yosys_slang.Base.{
  ℕ, zero, suc, ◌^◌, ◌-◌, ◌%◌, ◌/◌, Bool, true, false, ◌&&◌, ◌||◌, Option, [], ◌∷◌, if◌then◌else◌,
  ◌==◌,
}
use yosys_slang.Base.Int.{ℤ, pos, negsuc}
use yosys_slang.Rtlil.{SigBit, SigSpec, s0, s1, sx, sz, sa, state, is_state}
use yosys_slang.Variables.{Symbol, VariableBits}
use yosys_slang.Statements.Context.{Context}
use yosys_slang.Statements.Syntax.{
  Expr, CaseCondition, wildcard_just_z, wildcard_x_or_z, inside, UniquePriorityCheck, no_check,
  unique, unique0, priority, Stmt,
}

pub record Language : Type 0 where
  pub eval : Expr → Context → Option (SigSpec × Context)
  -- `inside_comparison`.
  pub inside_comparison : SigSpec → Expr → Context → Option (SigBit × Context)
  -- `EvalContext::variable`, as bits; it is not the invalid variable.
  pub variable : Symbol → Context → VariableBits
  -- `getInitializer`, and `convert_const` of the type's default value.
  pub initializer : Symbol → Option Expr
  pub default_value : Symbol → Option SigSpec
  pub is_static_lifetime : Symbol → Bool
  -- `SubroutineSymbol::subroutineKind`, and `returnValVar`.
  pub is_function : ℕ → Bool
  pub return_variable : ℕ → Option Symbol
  pub is_integral : Expr → Bool
  -- `RTLILBuilder::LogicNot`'s cell, and the evaluation of it for a constant.
  pub logic_not_cell : SigSpec → SigBit
  pub const_logic_not : SigSpec → SigSpec
  pub ignore_timing : Bool
  -- The number of a statement, and that of a statement list's element.
  pub number : Stmt → ℕ

-- `RTLIL::Const(value, 32)`.
unfoldable pub const_bits : ℕ → ℕ → SigSpec
const_bits zero n = []
const_bits (suc w) n = (if n % 2 == 1 then state s1 else state s0) ∷ const_bits w (n / 2)

unfoldable pub const_32 : ℤ → SigSpec
unfolding const_bits
const_32 (pos n) = const_bits 32 n
const_32 (negsuc n) = const_bits 32 (2 ^ 32 - 1 - n % 2 ^ 32)

-- What a value to compare with becomes, by the kind of the case statement.
unfoldable pub match_any : Bool → Bool → SigSpec → SigSpec
match_any match_x match_z [] = []
match_any match_x match_z (b ∷ l) =
    (if (is_state sz b && match_z) || (is_state sx b && match_x) then state sa else b)
    ∷ match_any match_x match_z l

unfoldable pub matches_x : CaseCondition → Bool
matches_x wildcard_x_or_z = true
matches_x c = false

unfoldable pub matches_z : CaseCondition → Bool
matches_z wildcard_just_z = true
matches_z wildcard_x_or_z = true
matches_z c = false

unfoldable pub is_inside : CaseCondition → Bool
is_inside inside = true
is_inside c = false

unfoldable pub check_flags : UniquePriorityCheck → Bool × Bool
check_flags priority = (true, false)
check_flags unique = (true, true)
check_flags unique0 = (false, true)
check_flags no_check = (false, false)
