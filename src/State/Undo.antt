-- ===== src/State/Undo.antt =====
-- src/slang_frontend.cc, VariableState: the entries of `revert` hold the values before a branch.
use yosys_slang.Base.{
  ◌≡◌, refl, sym, subst, ◌∙◌, true, false, Option, none, some, List, [], ◌∷◌, arith, Bool-cases,
  Option-cases, if◌then◌else◌, inl, inr,
}
use yosys_slang.Variables.{VariableBit, same_bit}
use yosys_slang.Variables.Views.{same_bit_iff}
use yosys_slang.Rtlil.{SigBit, SigSpec, sm, state, is_state}
use yosys_slang.State.Defs.{
  Map, lookup, insert, erase, VariableState, note_revert, set_bit, set_bits, undo_all,
}

pub same_bit_refl : (b : VariableBit) → same_bit b b ≡ true
same_bit_refl b = (same_bit_iff b b).1 refl

pub lookup-insert :
    (k b : VariableBit) (v : SigBit) (m : Map)
    → lookup k (insert b v m) ≡ (if same_bit b k then some v else lookup k m)
unfolding lookup insert
lookup-insert k b v [] = refl
lookup-insert k b v ((j, w) ∷ m) = elim (Bool-cases (same_bit j b)) [
  | inl e ↦ rw (e, (same_bit_iff j b).0 e) (ground arith)
  | inr e ↦
      rw (e, lookup-insert k b v m)
        (ground (arith, same_bit_iff j k, same_bit_iff b k, same_bit_iff j b))
]

pub lookup-erase :
    (k b : VariableBit) (m : Map)
    → lookup k (erase b m) ≡ (if same_bit b k then none else lookup k m)
unfolding lookup erase
lookup-erase k b [] = ground arith
lookup-erase k b ((j, w) ∷ m) = elim (Bool-cases (same_bit j b)) [
  | inl e ↦ rw (e, lookup-erase k b m, (same_bit_iff j b).0 e) (ground arith)
  | inr e ↦
      rw (e, lookup-erase k b m)
        (ground (arith, same_bit_iff j k, same_bit_iff b k, same_bit_iff j b))
]

-- What a bit's value was, from its entry in `revert` and its value now.
abbrev pub before : Option SigBit → Option SigBit → Option SigBit
before none now = now
before (some v) now = if is_state sm v then none else some v

pub lookup-undo_all :
    (k : VariableBit) (visible r : Map)
    → lookup k (undo_all visible r) ≡ before (lookup k r) (lookup k visible)
unfolding lookup undo_all
lookup-undo_all k visible [] = refl
lookup-undo_all k visible ((j, w) ∷ r) = elim (Bool-cases (is_state sm w)) [
  | inl e ↦
      rw (e, lookup-erase k j (undo_all visible r), lookup-undo_all k visible r) (ground arith)
  | inr e ↦
      rw (e, lookup-insert k j w (undo_all visible r), lookup-undo_all k visible r) (ground arith)
]

-- The value of a bit before the branch, read off the state inside it.
abbrev pub saved_value : VariableState → VariableBit → Option SigBit
saved_value s k = before (lookup k s.revert) (lookup k s.visible_assignments)

-- No bit has the value `Sm`, which marks a bit without a value in `revert`.
abbrev pub HasNoMarker : (VariableBit → Option SigBit) → Type 0
HasNoMarker f = (k : VariableBit) (v : SigBit) → f k ≡ some v → is_state sm v ≡ false

-- Each bit that `revert` names has a value.
abbrev pub HasValues : VariableState → Type 0
HasValues s = (k : VariableBit) → lookup k s.visible_assignments ≡ none → lookup k s.revert ≡ none

-- What a bit's entry becomes when the bit is set.
abbrev pub entry : Option SigBit → Option SigBit → SigBit
entry (some w) now = w
entry none (some w) = w
entry none none = state sm

entry_lem :
    (r m now : Option SigBit)
    → ((v : SigBit) → before r m ≡ some v → is_state sm v ≡ false)
    → before (some (entry r m)) now ≡ before r m
entry_lem (some w) m now h = refl
entry_lem none (some w) now h = rw (h w refl) refl
entry_lem none none now h = refl

entered :
    (s : VariableState) (b : VariableBit)
    → lookup b (note_revert s b) ≡ some (entry (lookup b s.revert) (lookup b s.visible_assignments))
unfolding note_revert lookup
entered s b = elim (Option-cases (lookup b s.revert)) [
  | inr (w, e) ↦ rw (note_revert, e) e
  | inl e ↦ elim (Option-cases (lookup b s.visible_assignments)) [
    | inl f ↦ rw (note_revert, e, f, lookup-insert b b (state sm) s.revert, same_bit_refl b) refl
    | inr (w, f) ↦ rw (note_revert, e, f, lookup-insert b b w s.revert, same_bit_refl b) refl
  ]
]

kept :
    (s : VariableState) (b k : VariableBit)
    → same_bit b k ≡ false
    → lookup k (note_revert s b) ≡ lookup k s.revert
unfolding note_revert lookup
kept s b k q = elim (Option-cases (lookup b s.revert)) [
  | inr (w, e) ↦ rw (note_revert, e) refl
  | inl e ↦ elim (Option-cases (lookup b s.visible_assignments)) [
    | inl f ↦ rw (note_revert, e, f, lookup-insert k b (state sm) s.revert, q) refl
    | inr (w, f) ↦ rw (note_revert, e, f, lookup-insert k b w s.revert, q) refl
  ]
]

note_revert_lem :
    (s : VariableState) (b k : VariableBit)
    → lookup k (note_revert s b) ≡ (
        if same_bit b k
        then some (entry (lookup k s.revert) (lookup k s.visible_assignments))
        else lookup k s.revert)
note_revert_lem s b k = elim (Bool-cases (same_bit b k)) [
  | inl q ↦
      subst
        (λ c. lookup c (note_revert s b) ≡ (
          if same_bit b c
          then some (entry (lookup c s.revert) (lookup c s.visible_assignments))
          else lookup c s.revert))
        ((same_bit_iff b k).0 q) (rw (same_bit_refl b) (entered s b))
  | inr q ↦ rw q (kept s b k q)
]

set_bit-saved_value :
    (s : VariableState) (b : VariableBit) (v : SigBit)
    → HasNoMarker (saved_value s)
    → (k : VariableBit) → saved_value (set_bit s b v) k ≡ saved_value s k
unfolding set_bit
set_bit-saved_value s b v h k =
    rw (lookup-insert k b v s.visible_assignments, note_revert_lem s b k)
      (elim (Bool-cases (same_bit b k)) [
        | inl q ↦
            rw q (entry_lem (lookup k s.revert) (lookup k s.visible_assignments) (some v) (h k))
        | inr q ↦ rw q refl
      ])

set_bit-HasValues :
    (s : VariableState) (b : VariableBit) (v : SigBit) → HasValues s → HasValues (set_bit s b v)
unfolding set_bit
set_bit-HasValues s b v h k e =
    ground (arith, h k, lookup-insert k b v s.visible_assignments, note_revert_lem s b k)

-- Whatever a run of assignments sets, the values from before the branch are still read off.
pub set_bits-saved_value :
    (s : VariableState) (l : List VariableBit) (value : SigSpec)
    → HasNoMarker (saved_value s)
    → (k : VariableBit) → saved_value (set_bits s l value) k ≡ saved_value s k
unfolding set_bits
set_bits-saved_value s [] value h k = refl
set_bits-saved_value s (b ∷ l) [] h k = refl
set_bits-saved_value s (b ∷ l) (v ∷ value) h k =
    set_bits-saved_value (set_bit s b v) l value
      (λ j w e. h j w (sym (set_bit-saved_value s b v h j) ∙ e)) k
    ∙ set_bit-saved_value s b v h k

pub set_bits-HasValues :
    (s : VariableState) (l : List VariableBit) (value : SigSpec)
    → HasValues s
    → HasValues (set_bits s l value)
unfolding set_bits
set_bits-HasValues s [] value h = h
set_bits-HasValues s (b ∷ l) [] h = h
set_bits-HasValues s (b ∷ l) (v ∷ value) h =
    set_bits-HasValues (set_bit s b v) l value (set_bit-HasValues s b v h)
