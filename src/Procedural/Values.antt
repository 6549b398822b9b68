-- ===== src/Procedural/Values.antt =====
-- src/procedural.cc: ProceduralContext::substitute_rvalue and all_driven, and the signal of a static
-- variable (src/slang_frontend.cc, NetlistContext::convert_static).
use yosys_slang.Base.{
  ℕ, zero, suc, ◌+◌, Option, none, some, List, [], ◌∷◌, ◌++◌, map, if◌then◌else◌, ◌>>=◌,
}
use yosys_slang.Rtlil.{SigBit, SigSpec, sx, state}
use yosys_slang.Variables.{
  Symbol, Variable, static, local, escape_flag, dummy, invalid, VariableBit, VariableBits,
  VariableChunk, Span, bits, chunk, empty_bits, append, chunk_spans, chunk_bits,
}
use yosys_slang.Variables.Order.{sort_and_unify}
use yosys_slang.State.{Map, lookup, evaluate_chunk}
use yosys_slang.Procedural.Defs.{Process, has_variable}

-- `map.at(bit, Sx)`.
abbrev pub value_or_x : Map → VariableBit → SigBit
value_or_x m b = elim (lookup b m) [ some v ↦ v | none ↦ state sx ]

unfoldable pub values_or_x : Map → List VariableBit → SigSpec
unfolding lookup
values_or_x m [] = []
values_or_x m (b ∷ l) = value_or_x m b ∷ values_or_x m l

-- The value of one chunk in an initial process, by its variable.
unfoldable pub initial_value : Process → Variable → VariableChunk → Option SigSpec
unfolding values_or_x
initial_value p (dummy n) c = none
initial_value p invalid c = none
initial_value p (local i d) c = some (values_or_x p.initial_locals_state (chunk_bits c))
initial_value p (escape_flag i) c = some (values_or_x p.initial_locals_state (chunk_bits c))
initial_value p (static i) c = some (values_or_x p.initial_state (chunk_bits c))

module _ (wire : Symbol → ℕ → SigBit) where
  unfoldable pub wire_cut : Symbol → ℕ → ℕ → SigSpec
  wire_cut i base zero = []
  wire_cut i base (suc n) = wire i base ∷ wire_cut i (base + 1) n

  -- The value of one chunk in another process: a static variable that no blocking assignment of the
  -- process was made to is read from its wire.
  unfoldable pub process_value : Process → Variable → VariableChunk → Option SigSpec
  unfolding has_variable evaluate_chunk wire_cut
  process_value p (static i) c =
      if has_variable (static i) p.seen_blocking
      then evaluate_chunk wire p.vstate c
      else some (wire_cut i c.base c.length)
  process_value p v c = evaluate_chunk wire p.vstate c

  unfoldable pub substitute_spans : Process → List Span → Option SigSpec
  unfolding initial_value process_value
  substitute_spans p [] = some []
  substitute_spans p (s ∷ l) = do
    v ←
        if p.initial
        then initial_value p s.chunk.variable s.chunk
        else process_value p s.chunk.variable s.chunk
    rest ← substitute_spans p l
    some (v ++ rest)

  unfoldable pub substitute_rvalue : VariableBits → Process → Option SigSpec
  unfolding substitute_spans chunk_spans
  substitute_rvalue v p = substitute_spans p (chunk_spans v)

unfoldable pub static_chunks : List Span → VariableBits → VariableBits
unfolding append
static_chunks [] acc = acc
static_chunks (s ∷ l) acc =
    static_chunks l (elim s.chunk.variable [ static i ↦ append acc (chunk s.chunk) | _ ↦ acc ])

-- `all_driven`: the static variables' bits that the process assigns.
unfoldable pub all_driven : (Symbol → ℕ) → Process → VariableBits
unfolding static_chunks chunk_spans sort_and_unify empty_bits
all_driven rank p =
    static_chunks
      (chunk_spans (sort_and_unify rank (bits (map (λ e. e.0) p.vstate.visible_assignments))))
      empty_bits
