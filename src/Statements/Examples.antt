-- ===== src/Statements/Examples.antt =====
-- Switches, loops and statements at concrete contexts.
use yosys_slang.Base.{
  ℕ, ◌+◌, ◌<◌, ◌≡◌, refl, sym, ap, subst, Bool, true, false, Option, none, some, List, [], ◌∷◌,
  arith, some_inj,
}
use yosys_slang.Base.Int.{pos, negsuc}
use yosys_slang.Rtlil.{SigBit, SigSpec, s0, state, wire_bit}
use yosys_slang.Variables.{Symbol, static, escape_flag, of_variable}
use yosys_slang.Builder.Gates.Examples.{cells}
use yosys_slang.Variables.{expand, same_bit}
use yosys_slang.Variables.Order.{sort_list, insert_bit}
use yosys_slang.State.{lookup}
use yosys_slang.Procedural.{Process, loop}
use yosys_slang.Statements.Context.{Context, empty_frame}
use yosys_slang.Statements.Foreach.{Index, first_index, first_indices}
use yosys_slang.Statements.Foreach.Order.{distance, place, tuples}
use yosys_slang.Statements.Foreach.Rounds.{rounds, rounds_lem}
use yosys_slang.Statements.Syntax.{
  Stmt, LoopDim, expression_statement, while_loop, conditional, break_statement, statement_list,
  add_stmt, no_stmt, absent, block,
}
use yosys_slang.Statements.Executor.{Language, execute, while_rounds, for_rounds, foreach_rounds}
use yosys_slang.Statements.Kept.{IsKept, IsKept-refl, some-Keeps}
use yosys_slang.Statements.Discipline.{execute-IsKept}
use yosys_slang.Statements.Initial.{while_initial}
use yosys_slang.Statements.Fuel.{loops_fuel}

-- An expression is a wire of its own; a statement has the number 0.
abbrev language : Language
language = record {
  eval = λ e c. some (wire_bit 90 e ∷ [], c);
  inside_comparison = λ v e c. some (wire_bit 91 e, c);
  variable = λ s c. of_variable (static s) 1;
  initializer = λ s. none;
  default_value = λ s. none;
  is_static_lifetime = λ s. true;
  is_function = λ s. true;
  return_variable = λ s. none;
  is_integral = λ e. true;
  logic_not_cell = λ v. wire_bit 92 0;
  const_logic_not = λ v. state s0 ∷ [];
  ignore_timing = false;
  number = λ s. 0;
}

abbrev no_memory : Symbol → Bool
no_memory s = false

abbrev rank : Symbol → ℕ
rank s = s

-- In a loop whose flag has the value 0.
abbrev process : Process
process = record {
  initial = false;
  vstate = record {
    visible_assignments = (record { variable = escape_flag 0; offset = 0 }, state s0) ∷ [];
    revert = [];
  };
  actions = [];
  seen_blocking = [];
  seen_nonblocking = [];
  initial_locals_state = [];
  initial_state = [];
  memory_inits = [];
  diags = [];
  escape_stack = record { flag = escape_flag 0; subroutine = none; kind = loop } ∷ [];
  flag_counter = 1;
}

abbrev context : Context
context = record {
  process = process;
  frame = empty_frame [];
  outer = [];
  next_wire = 100;
  unroll = record {
    limit = 2;
    unrolling = 1;
    unroll_counter = 0;
    loops = [];
    error_issued = false;
    diags = [];
  };
  scopes = 7 ∷ [];
  diags = [];
}

abbrev initial_context : Context
initial_context = record context {
  process = record process {
    initial = true;
    vstate = record { visible_assignments = []; revert = [] };
    escape_stack = [];
  };
}

language-Keeps :
    (e : ℕ) (c d : Context) (v : SigSpec) → language.eval e c ≡ some (v, d) → IsKept c d
language-Keeps e c d v h =
    subst (IsKept c) (ap (λ (x : SigSpec × Context). x.1) (some_inj _ (v, d) h)) (IsKept-refl c)

inside-Keeps :
    (v : SigSpec) (e : ℕ) (c d : Context) (b : SigBit)
    → language.inside_comparison v e c ≡ some (b, d)
    → IsKept c d
inside-Keeps v e c d b h =
    subst (IsKept c) (ap (λ (x : SigBit × Context). x.1) (some_inj _ (b, d) h)) (IsKept-refl c)

abbrev down_up : List LoopDim
down_up =
    record { loop_var = some 1; range = some (record { left = pos 1; right = negsuc 0 }) }
    ∷ record { loop_var = none; range = none }
    ∷ record { loop_var = some 2; range = some (record { left = pos 0; right = pos 1 }) }
    ∷ []

abbrev middle : List (Option Index)
middle =
    some (record { range = record { left = pos 1; right = negsuc 0 }; value = pos 0 })
    ∷ none
    ∷ some (record { range = record { left = pos 0; right = pos 1 }; value = pos 1 })
    ∷ []

rounds_lem_example :
    (place middle < tuples (first_indices down_up))
    × (rounds (place middle) (first_indices down_up) ≡ some middle)
    × (rounds (tuples (first_indices down_up)) (first_indices down_up) ≡ none)
unfolding first_indices first_index distance
rounds_lem_example = rounds_lem down_up middle refl (refl, (tt, (refl, tt)))

while_initial_example :
    execute language no_memory cells wire_bit rank (while_loop 0 break_statement) initial_context
    ≡ none
unfolding lookup
while_initial_example =
    while_initial language no_memory cells wire_bit rank 0 break_statement initial_context refl refl
      (λ x y v h.
        ap (λ (r : SigSpec × Context). r.1.process.vstate)
          (sym (some_inj (wire_bit 90 0 ∷ [], x) (v, y) h)))

loops_fuel_example :
    (while_rounds language no_memory cells wire_bit rank (4 + 3) 0 0 5 (escape_flag 0) some context
      ≡ while_rounds language no_memory cells wire_bit rank 4 0 0 5 (escape_flag 0) some context)
    × (for_rounds language no_memory cells wire_bit rank
          (4 + 3)
          0
          0
          5
          (6 ∷ [])
          (escape_flag 0)
          some
          context
        ≡ for_rounds language no_memory cells wire_bit rank 4 0 0 5
            (6 ∷ [])
            (escape_flag 0)
            some
            context)
    × (foreach_rounds language no_memory cells wire_bit rank
          (4 + 3)
          0
          0
          down_up
          middle
          (escape_flag 0)
          some
          context
        ≡ foreach_rounds language no_memory cells wire_bit rank 4 0 0 down_up middle
            (escape_flag 0)
            some
            context)
loops_fuel_example =
    loops_fuel language no_memory cells wire_bit rank language-Keeps inside-Keeps 3 0 0 5 (6 ∷ [])
      down_up middle (escape_flag 0) some context some-Keeps (omega arith)

-- `if (e0) break; e1;`, in a block.
abbrev leaves : Stmt
leaves = block (some 3) (
    statement_list
      (add_stmt (conditional 0 break_statement absent) (add_stmt (expression_statement 1) no_stmt)))

abbrev ended : Option Context → Context
ended (some c) = c
ended none = context

execute-IsKept_example :
    IsKept context (ended (execute language no_memory cells wire_bit rank leaves context))
unfolding execute expand same_bit sort_list insert_bit
execute-IsKept_example =
    execute-IsKept language no_memory cells wire_bit rank language-Keeps inside-Keeps leaves context
      _ refl
