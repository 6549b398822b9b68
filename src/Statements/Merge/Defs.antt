-- ===== src/Statements/Merge/Defs.antt =====
-- src/statements.h, SwitchHelper::finish: the placeholders that hold the values of the variables that
-- a branch updated, and the actions that drive them. A placeholder is a wire with the next number.
use yosys_slang.Base.{
  ℕ, zero, suc, ◌+◌, Bool, true, false, ◌&&◌, not, Option, none, some, List, [], ◌∷◌, ◌++◌,
  if◌then◌else◌, log_assert, ◌>>=◌, ◌>>◌,
}
use yosys_slang.Rtlil.{SigBit, SigSpec, wire_bit, cut}
use yosys_slang.Variables.{
  Symbol, Variable, static, VariableBit, VariableBits, VariableChunk, Span, chunk, unpack,
  chunk_bits, chunk_spans, append, empty_bits,
}
use yosys_slang.Variables.Order.{sort_and_unify}
use yosys_slang.Cases.{SigSig}
use yosys_slang.State.{Map, lookup, VariableState, set, evaluate_chunk, values_at}
use yosys_slang.Procedural.{has_variable, add_variable}

abbrev pub is_static : Variable → Bool
is_static (static s) = true
is_static v = false

abbrev pub has_value : Map → VariableBit → Bool
has_value m b = elim (lookup b m) [ some v ↦ true | none ↦ false ]

-- `eos_variables`: a variable that has no value once the branches are left is out of its scope.
unfoldable pub end_of_scope : Map → List VariableBit → List Variable
unfolding add_variable lookup
end_of_scope va [] = []
end_of_scope va (b ∷ l) =
    let rest = end_of_scope va l in
    if not (is_static b.variable) && not (has_value va b)
    then add_variable b.variable rest
    else rest

unfoldable pub wire_bits : ℕ → ℕ → ℕ → SigSpec
wire_bits w i zero = []
wire_bits w i (suc n) = wire_bit w i ∷ wire_bits w (i + 1) n

-- What the loop over the updated chunks changes: the values, the netlist's wires, and the parent's
-- `aux_actions`.
pub record Merge : Type 0 where
  pub vstate : VariableState
  pub next_wire : ℕ
  pub defaults : List SigSig

unfoldable pub none_has_value : Map → List VariableBit → Bool
unfolding lookup
none_has_value va [] = true
none_has_value va (b ∷ l) = not (has_value va b) && none_has_value va l

module _ (wire : Symbol → ℕ → SigBit) where
  -- A placeholder takes the place of a chunk's value, which becomes its default.
  unfoldable pub merge_live : VariableChunk → Merge → Option Merge
  unfolding evaluate_chunk set wire_bits
  merge_live c m = do
    w_default ← evaluate_chunk wire m.vstate c
    let w = wire_bits m.next_wire 0 c.length
    v ← set m.vstate (chunk c) w
    some (record {
      vstate = v;
      next_wire = suc m.next_wire;
      defaults = m.defaults ++ ((w, w_default) ∷ []);
    })

  unfoldable pub merge_chunk : List Variable → VariableChunk → Merge → Option Merge
  unfolding merge_live none_has_value has_variable
  merge_chunk eos c m =
      if not (is_static c.variable) && has_variable c.variable eos
      then (do log_assert (none_has_value m.vstate.visible_assignments (chunk_bits c)); some m)
      else merge_live c m

  unfoldable pub merge_chunks : List Variable → List Span → Merge → Option Merge
  unfolding merge_chunk
  merge_chunks eos [] m = some m
  merge_chunks eos (s ∷ l) m = do n ← merge_chunk eos s.chunk m; merge_chunks eos l n

-- The actions of one branch: each chunk that it updated, by the placeholder it was given.
unfoldable pub branch_actions : List Variable → Map → SigSpec → ℕ → List Span → Option (List SigSig)
unfolding values_at has_variable
branch_actions eos va source done [] = some []
branch_actions eos va source done (s ∷ l) =
    let rest = branch_actions eos va source (done + s.chunk.length) l in
    if has_variable s.chunk.variable eos then rest else (do
      target_w ← values_at va (chunk_bits s.chunk)
      actions ← rest
      some ((target_w, cut source done s.chunk.length) ∷ actions))

-- What a branch updated, with the values at its end.
abbrev pub Updates : Type 0
Updates = VariableBits × SigSpec

unfoldable pub all_updated : List Updates → VariableBits → VariableBits
unfolding append
all_updated [] acc = acc
all_updated ((target, source) ∷ l) acc = all_updated l (append acc target)

unfoldable pub all_branch_actions : List Variable → Map → List Updates → Option (List (List SigSig))
unfolding branch_actions chunk_spans
all_branch_actions eos va [] = some []
all_branch_actions eos va ((target, source) ∷ l) = do
  actions ← branch_actions eos va source 0 (chunk_spans target)
  rest ← all_branch_actions eos va l
  some (actions ∷ rest)

pub record Merged : Type 0 where
  pub result : Merge
  pub branches : List (List SigSig)

-- `updated_anybranch`.
unfoldable pub updated_anybranch : (Symbol → ℕ) → List Updates → VariableBits
unfolding sort_and_unify all_updated empty_bits
updated_anybranch rank l = sort_and_unify rank (all_updated l empty_bits)

-- `eos_variables`, from the values when all branches are left.
unfoldable pub eos_variables : (Symbol → ℕ) → VariableState → List Updates → List Variable
unfolding updated_anybranch end_of_scope unpack
eos_variables rank vstate l =
    end_of_scope vstate.visible_assignments (unpack (updated_anybranch rank l))

-- `SwitchHelper::finish`, on the values when all branches are left.
unfoldable pub finish_values :
    (Symbol → ℕ → SigBit) → (Symbol → ℕ) → VariableState → ℕ → List Updates → Option Merged
unfolding eos_variables updated_anybranch merge_chunks all_branch_actions chunk_spans
finish_values wire rank vstate next_wire l = do
  let eos = eos_variables rank vstate l
  m ←
      merge_chunks wire eos (chunk_spans (updated_anybranch rank l))
        (record { vstate = vstate; next_wire = next_wire; defaults = [] })
  branches ← all_branch_actions eos m.vstate.visible_assignments l
  some (record { result = m; branches = branches })
