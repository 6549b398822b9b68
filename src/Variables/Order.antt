-- ===== src/Variables/Order.antt =====
-- src/variables.cc (`Variable::operator<`) and src/variables.h (`operator<` of VariableBit, `sort`,
-- `sort_and_unify`). `rank` is the place of a symbol in the order that `order_scopes` and
-- `order_symbols_within_scope` read from the AST.
use yosys_slang.Base.{
  ℕ, Bool, false, ◌&&◌, ◌||◌, not, Option, none, some, List, [], ◌∷◌, ◌==◌, ltb, if◌then◌else◌,
}
use yosys_slang.Variables.Bits.{
  Symbol, Variable, static, local, escape_flag, dummy, VariableBit, VariableBits, bits, kind_number,
  same_bit, unpack,
}

module _ (rank : Symbol → ℕ) where
  -- The comparison of two variables of one kind; `none` is the `log_abort` on Invalid ones.
  less_within : Variable → Variable → Option Bool
  less_within (static s) (static t) = some (if s == t then false else ltb (rank s) (rank t))
  less_within (local s d) (local t e) = some (if s == t then false else ltb (rank s) (rank t))
  less_within (escape_flag i) (escape_flag j) = some (ltb i j)
  less_within (dummy m) (dummy n) = some (ltb m n)
  less_within _ _ = none

  -- `Variable::operator<`.
  unfoldable pub compare_variables : Variable → Variable → Option Bool
  unfolding less_within kind_number
  compare_variables v w =
      if kind_number v == kind_number w
      then less_within v w
      else some (ltb (kind_number v) (kind_number w))

  -- Whether `operator<` answers that `v` comes first, which it does not where it aborts.
  unfoldable pub less_variable : Variable → Variable → Bool
  unfolding compare_variables
  less_variable v w = elim (compare_variables v w) [ some b ↦ b | none ↦ false ]

  -- `label() < other.label()`, on tuples.
  unfoldable pub less_bit : VariableBit → VariableBit → Bool
  less_bit a b =
      less_variable a.variable b.variable
      || (not (less_variable b.variable a.variable) && ltb a.offset b.offset)

  -- `std::sort`, as an insertion sort.
  unfoldable pub insert_bit : VariableBit → List VariableBit → List VariableBit
  insert_bit a [] = a ∷ []
  insert_bit a (b ∷ l) = if less_bit a b then a ∷ b ∷ l else b ∷ insert_bit a l

  unfoldable pub sort_list : List VariableBit → List VariableBit
  sort_list [] = []
  sort_list (a ∷ l) = insert_bit a (sort_list l)

  unfoldable pub sort : VariableBits → VariableBits
  sort v = bits (sort_list (unpack v))

-- `std::unique`: of neighbours that are equal the first stays.
unfoldable pub unique_after : VariableBit → List VariableBit → List VariableBit
unique_after a [] = []
unique_after a (b ∷ l) =
    let dropped = unique_after a l in
    let kept = b ∷ unique_after b l in if same_bit a b then dropped else kept

unfoldable pub unique : List VariableBit → List VariableBit
unfolding unique_after
unique [] = []
unique (a ∷ l) = a ∷ unique_after a l

unfoldable pub sort_and_unify : (Symbol → ℕ) → VariableBits → VariableBits
unfolding unique sort
sort_and_unify rank v = bits (unique (unpack (sort rank v)))
