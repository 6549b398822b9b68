-- ===== src/State/Branch.antt =====
-- src/slang_frontend.cc, VariableState: a branch is entered by `save`, its assignments are made by
-- `set`, and it is left by `restore`.
use yosys_slang.Base.{
  ℕ, ◌≡◌, ◌≢◌, refl, sym, ap, ◌∙◌, false, Option, none, some, List, [], ◌∷◌, map, arith,
  Option-cases, inl, inr, ◌>>=◌, >>=-some,
}
use yosys_slang.Variables.{Symbol, VariableBit, VariableBits, bits, unpack}
use yosys_slang.Variables.Order.{sort}
use yosys_slang.Variables.Sorting.{contains, sort_lem}
use yosys_slang.Variables.Views.{same_bit_iff}
use yosys_slang.Rtlil.{SigSpec}
use yosys_slang.State.Defs.{Map, lookup, VariableState, set, save, values_at, undo_all, restore}
use yosys_slang.State.Undo.{
  before, same_bit_refl, lookup-undo_all, saved_value, HasNoMarker, HasValues, set_bits-saved_value,
  set_bits-HasValues,
}

-- The assignments of a branch, in order.
unfoldable pub set_all : VariableState → List (VariableBits × SigSpec) → Option VariableState
set_all s [] = some s
set_all s ((lhs, value) ∷ l) = do t ← set s lhs value; set_all t l

abbrev IsKept : VariableState → VariableState → Type 0
IsKept s t = ((k : VariableBit) → saved_value t k ≡ saved_value s k) × HasValues t

set_keeps :
    (s t : VariableState) (lhs : VariableBits) (value : SigSpec)
    → HasNoMarker (saved_value s)
    → HasValues s
    → set s lhs value ≡ some t
    → IsKept s t
unfolding set
set_keeps s t lhs value h hv e =
    ground (
      arith,
      set_bits-saved_value s (unpack lhs) value h,
      set_bits-HasValues s (unpack lhs) value hv,
    )

set_all_keeps :
    (s t : VariableState) (l : List (VariableBits × SigSpec))
    → HasNoMarker (saved_value s)
    → HasValues s
    → set_all s l ≡ some t
    → IsKept s t
unfolding set_all
set_all_keeps s t [] h hv e = ground arith
set_all_keeps s t ((lhs, value) ∷ l) h hv e =
    let (u, f, g) = >>=-some (set s lhs value) (λ u. set_all u l) t e in
    let (k, v) = set_keeps s u lhs value h hv f in
    let (j, w) = set_all_keeps u t l (λ b x p. h b x (sym (k b) ∙ p)) v g in ((λ b. j b ∙ k b), w)

lookup-contains :
    (k : VariableBit) (r : Map) → contains k (map (λ e. e.0) r) ≡ false → lookup k r ≡ none
unfolding lookup
lookup-contains k [] h = refl
lookup-contains k ((j, w) ∷ r) h =
    ground (arith, lookup-contains k r, same_bit_iff k j, same_bit_iff j k)

contains-lookup :
    (k : VariableBit) (r : Map) → lookup k r ≡ none → contains k (map (λ e. e.0) r) ≡ false
unfolding lookup
contains-lookup k [] h = refl
contains-lookup k ((j, w) ∷ r) h =
    ground (arith, contains-lookup k r, same_bit_iff k j, same_bit_iff j k)

contains_behind :
    (k b : VariableBit) (l : List VariableBit) → contains k (b ∷ l) ≡ false → contains k l ≡ false
contains_behind k b l h = ground arith

not_found : (b : VariableBit) (l : List VariableBit) → contains b (b ∷ l) ≢ false
not_found b l h = ground (arith, same_bit_refl b)

values_at_total :
    (m : Map) (l : List VariableBit)
    → ((k : VariableBit) → lookup k m ≡ none → contains k l ≡ false)
    → (vs : SigSpec) × (values_at m l ≡ some vs)
unfolding values_at
values_at_total m [] h = ([], refl)
values_at_total m (b ∷ l) h =
    let (vs, e) = values_at_total m l (λ k p. contains_behind k b l (h k p)) in
    elim (Option-cases (lookup b m)) [
      | inl p ↦ absurd (not_found b l (h b p))
      | inr (v, p) ↦ (v ∷ vs, rw (p, e) refl)
    ]

-- Leaving a branch, whose assignments failed no assertion, gives a result, takes every value back
-- to what it was before, and puts the enclosing branch's record in place; the bits that it hands
-- over, with their values at the end of the branch, include every bit whose value the branch
-- changed. No value before the branch is `Sm`.
pub restore_lem :
    (rank : Symbol → ℕ) (s t : VariableState) (l : List (VariableBits × SigSpec))
    → HasNoMarker (λ k. lookup k s.visible_assignments)
    → set_all (save s []).0 l ≡ some t
    → (u : VariableState) × (lhs : VariableBits) × (value : SigSpec) × (restore rank t (save s []).1
        ≡ some (u, t.revert, lhs, value))
      × (u.revert ≡ s.revert)
      × ((k : VariableBit) → lookup k u.visible_assignments ≡ lookup k s.visible_assignments)
      × ((k : VariableBit)
          → contains k (unpack lhs) ≡ false
          → lookup k t.visible_assignments ≡ lookup k s.visible_assignments)
      × (values_at t.visible_assignments (unpack lhs) ≡ some value)
unfolding save restore unpack lookup
restore_lem rank s t l h e =
    let (k, v) = set_all_keeps (save s []).0 t l h (λ b p. refl) e in
    let keys = bits (map (λ e. e.0) t.revert) in
    let (o, c) = sort_lem rank keys in
    let (vs, f) =
      values_at_total t.visible_assignments (unpack (sort rank keys))
        (λ b p. c b ∙ contains-lookup b t.revert (v b p)) in
    (
      record { visible_assignments = undo_all t.visible_assignments t.revert; revert = s.revert },
      sort rank keys,
      vs,
      rw f refl,
      refl,
      (λ b. lookup-undo_all b t.visible_assignments t.revert ∙ k b),
      (λ b p.
          sym (
            ap (λ r. before r (lookup b t.visible_assignments))
              (lookup-contains b t.revert (sym (c b) ∙ p)))
          ∙ k b),
      f,
    )
