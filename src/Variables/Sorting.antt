-- ===== src/Variables/Sorting.antt =====
-- src/variables.h and src/variables.cc: what `operator<` tells apart, and what sorting does.
use yosys_slang.Base.{
  ℕ, ◌≡◌, ◌≢◌, ◌⊎◌, inl, inr, refl, ap, sym, subst, ◌∙◌, Bool, true, false, ◌||◌, List, [], ◌∷◌,
  arith, Bool-cases, All,
}
use yosys_slang.Variables.Bits.{
  Symbol, Variable, static, local, escape_flag, dummy, invalid, VariableBit, VariableBits,
  kind_number, same_bit, unpack,
}
use yosys_slang.Variables.Views.{same_bit_iff}
use yosys_slang.Variables.Order.{
  less_variable, less_bit, insert_bit, sort_list, sort, unique_after, unique, sort_and_unify,
}

-- The place of a symbol tells it apart.
abbrev pub IsInjective : (Symbol → ℕ) → Type 0
IsInjective rank = (s t : Symbol) → rank s ≡ rank t → s ≡ t

-- Two locals of one symbol, at two nest levels or at one.
abbrev pub SameLocal : Variable → Variable → Type 0
SameLocal (local s d) (local t e) = s ≡ t
SameLocal _ _ = ⊥

abbrev pub contains : VariableBit → List VariableBit → Bool
contains a [] = false
contains a (b ∷ l) = same_bit a b || contains a l

module _ (rank : Symbol → ℕ) where
  -- No bit is less than the one before it.
  abbrev pub IsSorted : List VariableBit → Type 0
  IsSorted [] = Unit {0}
  IsSorted (a ∷ []) = Unit {0}
  IsSorted (a ∷ b ∷ l) = (less_bit rank b a ≡ false) × IsSorted (b ∷ l)

  -- Each bit is less than the one behind it.
  abbrev pub IsAscending : List VariableBit → Type 0
  IsAscending [] = Unit {0}
  IsAscending (a ∷ []) = Unit {0}
  IsAscending (a ∷ b ∷ l) = (less_bit rank a b ≡ true) × IsAscending (b ∷ l)

  -- Where the rank tells symbols apart, the order cannot tell two variables apart only where they
  -- are one or both are locals of one symbol.
  pub less_variable-total :
      IsInjective rank
      → (v w : Variable) → less_variable rank v w ≡ false
      → less_variable rank w v ≡ false
      → (v ≡ w) ⊎ SameLocal v w
  unfolding less_variable
  less_variable-total inj (static s) (static t) h k = ground (arith, inj s t)
  less_variable-total inj (local s d) (local t e) h k = ground (arith, inj s t)
  less_variable-total inj v w h k = ground arith

  less_variable_asymm :
      (v w : Variable) → less_variable rank v w ≡ true → less_variable rank w v ≡ false
  unfolding less_variable
  less_variable_asymm v w h = ground arith

  less_bit_asymm : (a b : VariableBit) → less_bit rank a b ≡ true → less_bit rank b a ≡ false
  unfolding less_bit
  less_bit_asymm a b h =
      ground (
        arith,
        less_variable_asymm a.variable b.variable,
        less_variable_asymm b.variable a.variable,
      )

  insert_bit-IsSorted_behind :
      (a b : VariableBit) (l : List VariableBit)
      → IsSorted (b ∷ l)
      → less_bit rank a b ≡ false
      → IsSorted (b ∷ insert_bit rank a l)
  unfolding insert_bit
  insert_bit-IsSorted_behind a b [] s h = (h, tt)
  insert_bit-IsSorted_behind a b (c ∷ l) s h = elim (Bool-cases (less_bit rank a c)) [
    | inl e ↦ rw e (h, (less_bit_asymm a c e, s.1))
    | inr e ↦ rw e (s.0, insert_bit-IsSorted_behind a c l s.1 e)
  ]

  insert_bit-IsSorted :
      (a : VariableBit) (l : List VariableBit) → IsSorted l → IsSorted (insert_bit rank a l)
  unfolding insert_bit
  insert_bit-IsSorted a [] s = tt
  insert_bit-IsSorted a (b ∷ l) s = elim (Bool-cases (less_bit rank a b)) [
    | inl e ↦ rw e (less_bit_asymm a b e, s)
    | inr e ↦ rw e (insert_bit-IsSorted_behind a b l s e)
  ]

  sort_list-IsSorted : (l : List VariableBit) → IsSorted (sort_list rank l)
  unfolding sort_list
  sort_list-IsSorted [] = tt
  sort_list-IsSorted (a ∷ l) = insert_bit-IsSorted a (sort_list rank l) (sort_list-IsSorted l)

  contains-insert_bit :
      (a b : VariableBit) (l : List VariableBit)
      → contains a (insert_bit rank b l) ≡ (same_bit a b || contains a l)
  unfolding insert_bit
  contains-insert_bit a b [] = refl
  contains-insert_bit a b (c ∷ l) = ground (arith, contains-insert_bit a b l)

  contains-sort_list :
      (a : VariableBit) (l : List VariableBit) → contains a (sort_list rank l) ≡ contains a l
  unfolding sort_list
  contains-sort_list a [] = refl
  contains-sort_list a (b ∷ l) =
      contains-insert_bit a b (sort_list rank l) ∙ ap (◌||◌ (same_bit a b)) (contains-sort_list a l)

  -- `sort` leaves exactly the bits that were there, none of them less than the one before it.
  pub sort_lem :
      (v : VariableBits)
      → IsSorted (unpack (sort rank v))
        × ((a : VariableBit) → contains a (unpack (sort rank v)) ≡ contains a (unpack v))
  unfolding sort unpack
  sort_lem v = (sort_list-IsSorted (unpack v), λ a. contains-sort_list a (unpack v))

contains-unique_after :
    (a b : VariableBit) (l : List VariableBit)
    → (same_bit a b || contains a (unique_after b l)) ≡ (same_bit a b || contains a l)
unfolding unique_after
contains-unique_after a b [] = refl
contains-unique_after a b (c ∷ l) = ground (
  arith,
  same_bit_iff b c,
  same_bit_iff a b,
  contains-unique_after a b l,
  contains-unique_after a c l,
)

-- No two bits are locals of one symbol at distinct levels: here, none is a local.
abbrev pub IsFlat : VariableBit → Type 0
IsFlat b = kind_number b.variable ≢ 1

module _ (rank : Symbol → ℕ) (inj : IsInjective rank) where
  less_bit-total :
      (a b : VariableBit)
      → IsFlat a
      → less_bit rank b a ≡ false
      → same_bit a b ≡ false
      → less_bit rank a b ≡ true
  unfolding less_bit kind_number
  less_bit-total a b f h k =
      ground (arith, same_bit_iff a b, less_variable-total rank inj a.variable b.variable)

  unique_after-IsAscending :
      (a : VariableBit) (l : List VariableBit)
      → IsFlat a
      → All IsFlat l
      → IsSorted rank (a ∷ l)
      → IsAscending rank (a ∷ unique_after a l)
  unfolding unique_after
  unique_after-IsAscending a [] fa fl s = tt
  unique_after-IsAscending a (b ∷ l) fa fl s = elim (Bool-cases (same_bit a b)) [
    | inl e ↦ rw e (
        unique_after-IsAscending a l fa fl.1
          (subst (λ k. IsSorted rank (k ∷ l)) (sym ((same_bit_iff a b).0 e)) s.1))
    | inr e ↦ rw e (less_bit-total a b fa s.0 e, unique_after-IsAscending b l fl.0 fl.1 s.1)
  ]

  unique-IsAscending :
      (l : List VariableBit) → All IsFlat l → IsSorted rank l → IsAscending rank (unique l)
  unfolding unique
  unique-IsAscending [] f s = tt
  unique-IsAscending (a ∷ l) f s = unique_after-IsAscending a l f.0 f.1 s

contains-unique : (a : VariableBit) (l : List VariableBit) → contains a (unique l) ≡ contains a l
unfolding unique
contains-unique a [] = refl
contains-unique a (b ∷ l) = contains-unique_after a b l

module _ (rank : Symbol → ℕ) where
  All-insert_bit :
      (a : VariableBit) (l : List VariableBit)
      → IsFlat a
      → All IsFlat l
      → All IsFlat (insert_bit rank a l)
  unfolding insert_bit
  All-insert_bit a [] h k = (h, tt)
  All-insert_bit a (b ∷ l) h k = elim (Bool-cases (less_bit rank a b)) [
    | inl e ↦ rw e (h, k)
    | inr e ↦ rw e (k.0, All-insert_bit a l h k.1)
  ]

  pub contains-sort_and_unify :
      (v : VariableBits) (a : VariableBit)
      → contains a (unpack (sort_and_unify rank v)) ≡ contains a (unpack v)
  unfolding sort_and_unify sort unpack
  contains-sort_and_unify v a =
      contains-unique a (sort_list rank (unpack v)) ∙ contains-sort_list rank a (unpack v)

  All-sort_list : (l : List VariableBit) → All IsFlat l → All IsFlat (sort_list rank l)
  unfolding sort_list
  All-sort_list [] k = tt
  All-sort_list (a ∷ l) k = All-insert_bit a (sort_list rank l) k.0 (All-sort_list l k.1)

  -- `sort_and_unify` keeps exactly the bits that were there. Where the rank tells symbols apart and
  -- no bit is of a local, it leaves each bit less than the next, so once.
  pub sort_and_unify_lem :
      IsInjective rank
      → (v : VariableBits) → All IsFlat (unpack v)
      → IsAscending rank (unpack (sort_and_unify rank v))
        × ((a : VariableBit) → contains a (unpack (sort_and_unify rank v)) ≡ contains a (unpack v))
  unfolding sort_and_unify sort unpack
  sort_and_unify_lem inj v f = (
    unique-IsAscending rank inj (sort_list rank (unpack v)) (All-sort_list (unpack v) f)
        (sort_list-IsSorted rank (unpack v)),
    λ a. contains-unique a (sort_list rank (unpack v)) ∙ contains-sort_list rank a (unpack v),
  )

less_variable_irrefl : (rank : Symbol → ℕ) (v : Variable) → less_variable rank v v ≡ false
unfolding less_variable
less_variable_irrefl rank (static s) = ground arith
less_variable_irrefl rank (local s d) = ground arith
less_variable_irrefl rank (escape_flag i) = ground arith
less_variable_irrefl rank (dummy w) = ground arith
less_variable_irrefl rank invalid = ground arith

pub less_bit_irrefl : (rank : Symbol → ℕ) (b : VariableBit) → less_bit rank b b ≡ false
unfolding less_bit
less_bit_irrefl rank b = rw (less_variable_irrefl rank b.variable) (ground arith)
