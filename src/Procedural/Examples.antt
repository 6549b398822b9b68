-- ===== src/Procedural/Examples.antt =====
-- Assignments and ticks of a concrete process.
use yosys_slang.Base.{◌≡◌, refl, Bool, true, false, [], ◌∷◌, arith, length, ◌&&◌, ◌||◌}
use yosys_slang.Rtlil.{s0, s1, sm, state, wire_bit}
use yosys_slang.Variables.{
  static, VariableBit, VariableBits, bits, bitwidth, unpack, chunk_spans, same_bit, same_variable,
}
use yosys_slang.Builder.Gates.Examples.{cells}
use yosys_slang.State.{set, set_bits, set_bit, note_revert, lookup, insert}
use yosys_slang.Procedural.Defs.{
  Process, nonblocking_after_blocking, crop, check_chunk, check_chunks, update_values, masked_value,
  has_variable, update_variable_state,
}
use yosys_slang.Procedural.Discipline.{IsDisjoint, update_variable_state-IsDisjoint}
use yosys_slang.Procedural.Unrolling.{
  UnrollLimit, enter_unrolling, unroll_ticks, granted, unroll_ticks_lem,
}

abbrev bit_a : VariableBit
bit_a = record { variable = static 0; offset = 0 }

abbrev bit_b : VariableBit
bit_b = record { variable = static 0; offset = 1 }

abbrev target : VariableBits
target = bits (bit_a ∷ bit_b ∷ [])

-- A process in which the variable 0 was assigned by a blocking assignment.
abbrev process : Process
process = record {
  initial = false;
  vstate = record { visible_assignments = []; revert = [] };
  actions = [];
  seen_blocking = static 0 ∷ [];
  seen_nonblocking = [];
  initial_locals_state = [];
  initial_state = [];
  memory_inits = [];
  diags = [];
  escape_stack = [];
  flag_counter = 0;
}

-- Behind a nonblocking assignment to its upper bit.
abbrev updated : Process
updated = record process {
  vstate = record { visible_assignments = (bit_b, state s1) ∷ []; revert = (bit_b, state sm) ∷ [] };
  actions =
      record { lvalue = bits (bit_b ∷ []); mask = state s1 ∷ []; unmasked_rvalue = state s1 ∷ [] }
      ∷ [];
  diags = nonblocking_after_blocking (static 0) ∷ [];
}

none_left : (b : Bool) → (b && false) ≡ false
none_left b = ground arith

process-IsDisjoint : IsDisjoint process
unfolding has_variable
process-IsDisjoint v = none_left (same_variable v (static 0) || false)

update_variable_state-IsDisjoint_example : IsDisjoint updated
unfolding update_variable_state check_chunks check_chunk update_values masked_value crop set
    set_bits set_bit note_revert lookup insert chunk_spans bitwidth unpack same_bit has_variable
    same_variable
update_variable_state-IsDisjoint_example =
    update_variable_state-IsDisjoint (λ s. false) cells wire_bit target (state s0 ∷ state s1 ∷ [])
      (state s0 ∷ state s1 ∷ []) false process updated process-IsDisjoint refl

abbrev fresh : UnrollLimit
fresh = record {
  limit = 2;
  unrolling = 0;
  unroll_counter = 7;
  loops = [];
  error_issued = true;
  diags = [];
}

unroll_ticks_lem_example :
    ((unroll_ticks (1 ∷ 2 ∷ 1 ∷ 1 ∷ []) (enter_unrolling fresh)).0 ≡ granted 2 (1 ∷ 2 ∷ 1 ∷ 1 ∷ []))
    × (length (unroll_ticks (1 ∷ 2 ∷ 1 ∷ 1 ∷ []) (enter_unrolling fresh)).1.diags ≡ 1)
unroll_ticks_lem_example = unroll_ticks_lem fresh (1 ∷ 2 ∷ 1 ∷ 1 ∷ []) refl
