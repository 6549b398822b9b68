-- ===== src/State/Defs.antt =====
-- src/slang_frontend.cc: VariableState. A `Yosys::dict` is a list of entries; the order in which it
-- is gone through is that of the list from its end, which the source leaves open.
use yosys_slang.Base.{
  ℕ, Option, none, some, List, [], ◌∷◌, map, if◌then◌else◌, ◌==◌, length, log_assert, ◌>>=◌, ◌>>◌,
}
use yosys_slang.Variables.{
  Symbol, static, VariableBit, VariableBits, VariableChunk, bits, same_bit, is_dummy, unpack,
  bitwidth, chunk_bits,
}
use yosys_slang.Variables.Order.{sort}
use yosys_slang.Rtlil.{sx, sm, SigBit, SigSpec, state, is_state}

abbrev pub Map : Type 0
Map = List (VariableBit × SigBit)

unfoldable pub lookup : VariableBit → Map → Option SigBit
lookup k [] = none
lookup k ((j, v) ∷ m) = if same_bit j k then some v else lookup k m

-- `map[k] = v`.
unfoldable pub insert : VariableBit → SigBit → Map → Map
insert k v [] = (k, v) ∷ []
insert k v ((j, w) ∷ m) = if same_bit j k then (k, v) ∷ m else (j, w) ∷ insert k v m

unfoldable pub erase : VariableBit → Map → Map
erase k [] = []
erase k ((j, w) ∷ m) = let rest = erase k m in if same_bit j k then rest else (j, w) ∷ rest

pub record VariableState : Type 0 where
  pub visible_assignments : Map
  pub revert : Map

-- What `set` enters in `revert` for a bit, unless there is an entry.
unfoldable pub note_revert : VariableState → VariableBit → Map
unfolding lookup insert
note_revert s bit = elim (lookup bit s.revert) [
  | some _ ↦ s.revert
  | none ↦ elim (lookup bit s.visible_assignments) [
    | some v ↦ insert bit v s.revert
    | none ↦ insert bit (state sm) s.revert
  ]
]

unfoldable pub set_bit : VariableState → VariableBit → SigBit → VariableState
unfolding note_revert
set_bit s bit v = record s {
  revert = note_revert s bit;
  visible_assignments = insert bit v s.visible_assignments;
}

unfoldable pub set_bits : VariableState → List VariableBit → SigSpec → VariableState
unfolding set_bit
set_bits s [] value = s
set_bits s (b ∷ l) [] = s
set_bits s (b ∷ l) (v ∷ value) = set_bits (set_bit s b v) l value

-- `VariableState::set`.
unfoldable pub set : VariableState → VariableBits → SigSpec → Option VariableState
unfolding set_bits
set s lhs value = do log_assert (bitwidth lhs == length value); some (set_bits s (unpack lhs) value)

module _ (wire : Symbol → ℕ → SigBit) where
  -- A bit with no value of its own has that of its wire; only static variables have one.
  unfoldable pub wire_of : VariableBit → Option SigBit
  wire_of b = elim b.variable [ static s ↦ some (wire s b.offset) | _ ↦ none ]

  unfoldable pub evaluate_bit : VariableState → VariableBit → Option SigBit
  unfolding wire_of
  evaluate_bit s b =
      if is_dummy b.variable
      then some (state sx)
      else elim (lookup b s.visible_assignments) [ some v ↦ some v | none ↦ wire_of b ]

  unfoldable pub evaluate_list : VariableState → List VariableBit → Option SigSpec
  unfolding evaluate_bit
  evaluate_list s [] = some []
  evaluate_list s (b ∷ l) = do v ← evaluate_bit s b; rest ← evaluate_list s l; some (v ∷ rest)

  -- `evaluate(NetlistContext &, VariableBits)`.
  unfoldable pub evaluate : VariableState → VariableBits → Option SigSpec
  unfolding evaluate_list
  evaluate s v = evaluate_list s (unpack v)

  -- `evaluate(NetlistContext &, VariableChunk)`, which has no case for dummies.
  unfoldable pub evaluate_chunk_bit : VariableState → VariableBit → Option SigBit
  unfolding wire_of
  evaluate_chunk_bit s b = elim (lookup b s.visible_assignments) [
    | some v ↦ some v
    | none ↦ wire_of b
  ]

  unfoldable pub evaluate_chunk_list : VariableState → List VariableBit → Option SigSpec
  unfolding evaluate_chunk_bit
  evaluate_chunk_list s [] = some []
  evaluate_chunk_list s (b ∷ l) = do
    v ← evaluate_chunk_bit s b
    rest ← evaluate_chunk_list s l
    some (v ∷ rest)

  unfoldable pub evaluate_chunk : VariableState → VariableChunk → Option SigSpec
  unfolding evaluate_chunk_list
  evaluate_chunk s c = evaluate_chunk_list s (chunk_bits c)

-- `save`: the maps are exchanged.
unfoldable pub save : VariableState → Map → VariableState × Map
save s saved = (record s { revert = saved }, s.revert)

unfoldable pub values_at : Map → List VariableBit → Option SigSpec
values_at m [] = some []
values_at m (b ∷ l) = do v ← lookup b m; rest ← values_at m l; some (v ∷ rest)

-- The loop of `restore` that takes the entries of `revert` back.
unfoldable pub undo_all : Map → Map → Map
undo_all visible [] = visible
undo_all visible ((b, v) ∷ r) =
    let rest = undo_all visible r in if is_state sm v then erase b rest else insert b v rest

-- `restore`: the state, the map `save`, and the bits that were set with their last values.
unfoldable pub restore :
    (Symbol → ℕ) → VariableState → Map → Option (VariableState × Map × VariableBits × SigSpec)
unfolding values_at undo_all
restore rank s saved = do
  let lreverted = sort rank (bits (map (λ e. e.0) s.revert))
  rreverted ← values_at s.visible_assignments (unpack lreverted)
  some (
    record { visible_assignments = undo_all s.visible_assignments s.revert; revert = saved },
    s.revert,
    lreverted,
    rreverted,
  )
