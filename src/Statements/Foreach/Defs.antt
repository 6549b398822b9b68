-- ===== src/Statements/Foreach/Defs.antt =====
-- src/statements.h, the indices of `handle(const ast::ForeachLoopStatement &)`. The dimensions are those
-- of `reversedDims`, the one that changes fastest first; an index without a loop variable or range is none.
use yosys_slang.Base.{Bool, Option, none, some, List, [], ◌∷◌, if◌then◌else◌}
use yosys_slang.Base.Int.{ℤ, pos, ◌+ℤ◌, ◌-ℤ◌, ltb_ℤ, eqb_ℤ}
use yosys_slang.Statements.Syntax.{DimRange, LoopDim}

-- An index with the range of its dimension.
pub record Index : Type 0 where
  pub range : DimRange
  pub value : ℤ

-- One step towards the right bound.
unfoldable pub step_index : Index → Index
unfolding ◌+ℤ◌ ◌-ℤ◌
step_index x = record x {
  value = if ltb_ℤ x.range.right x.value then x.value -ℤ pos 1 else x.value +ℤ pos 1;
}

unfoldable pub at_end : Index → Bool
at_end x = eqb_ℤ x.value x.range.right

unfoldable pub reset_index : Index → Index
reset_index x = record x { value = x.range.left }

abbrev pub reset_option : Option Index → Option Index
reset_option none = none
reset_option (some x) = some (reset_index x)

abbrev pub put : Option Index → Option (List (Option Index)) → Option (List (Option Index))
put x none = none
put x (some l) = some (x ∷ l)

-- The search for `nextDimFound`: the first index that is not at its end is stepped, and the loop over
-- `k` resets those before it.
unfoldable pub search : List (Option Index) → Option (List (Option Index))
unfolding at_end step_index reset_index
search [] = none
search (none ∷ l) = put none (search l)
search (some x ∷ l) =
    let further = put (some (reset_index x)) (search l) in
    if at_end x then further else some (some (step_index x) ∷ l)

-- What the loop over `i` does: nothing is left to do, an index was stepped, or one was stepped and
-- those before it are to be reset.
pub data Scan : Type 0 where
  finished : Scan
  stepped carried : List (Option Index) → Scan

abbrev pub behind : Option Index → Scan → Scan
behind x finished = finished
behind x (stepped l) = stepped (x ∷ l)
behind x (carried l) = carried (reset_option x ∷ l)

abbrev pub carry : Index → Option (List (Option Index)) → Scan → Scan
carry x none next = behind (some x) next
carry x (some l) next = carried (some (reset_index x) ∷ l)

unfoldable pub scan : List (Option Index) → Scan
unfolding at_end step_index reset_index search
scan [] = finished
scan (none ∷ l) = behind none (scan l)
scan (some x ∷ l) =
    let next = carry x (search l) (scan l) in
    if at_end x then next else stepped (some (step_index x) ∷ l)

-- The indices of the next round, or none where the loop breaks.
unfoldable pub next_indices : List (Option Index) → Option (List (Option Index))
unfolding scan
next_indices l = elim (scan l) [ finished ↦ none | stepped r ↦ some r | carried r ↦ some r ]

-- The indices of the first round.
unfoldable pub first_index : LoopDim → Option Index
first_index d = elim d.loop_var [
  | none ↦ none
  | some v ↦ elim d.range [ none ↦ none | some r ↦ some (record { range = r; value = r.left }) ]
]

unfoldable pub first_indices : List LoopDim → List (Option Index)
unfolding first_index
first_indices [] = []
first_indices (d ∷ l) = first_index d ∷ first_indices l
