-- ===== src/Cases/Latch.antt =====
-- src/cases.h, `insert_latch_signaling`: a latched bit has a staging signal, for its value, and an
-- enable signal; `mapped` is the source's dictionary `map`.
pub mod Intent
pub mod Order
use yosys_slang.Base.{
  ℕ, Bool, true, false, ◌&&◌, ◌||◌, not, Option, none, some, List, [], ◌∷◌, ◌++◌, map,
  if◌then◌else◌,
}
use yosys_slang.Rtlil.{SigBit, SigSpec, s1, state, is_state}
use yosys_slang.Variables.{Symbol, VariableBit, unpack}
use yosys_slang.Variables.Order.{less_bit}
use yosys_slang.Cases.Tree.{
  SigSig, Action, Case, Switch, Switches, Cases, make_case, make_switch, no_switch, add_switch,
  no_case, add_case,
}

-- One bit of an action whose variable bit is in the dictionary.
pub record Hit : Type 0 where
  pub bit : VariableBit
  pub enable : SigBit
  pub staging : SigBit
  pub mask : SigBit
  pub value : SigBit

abbrev pub Mapping : Type 0
Mapping = VariableBit → Option (SigBit × SigBit)

-- The bits of an action, whose three parts have one width.
unfoldable pub hits_of : Mapping → List VariableBit → SigSpec → SigSpec → List Hit
hits_of mapped (b ∷ l) (m ∷ mask) (v ∷ value) =
    let rest = hits_of mapped l mask value in
    elim (mapped b) [
      | some signals ↦
          record { bit = b; enable = signals.0; staging = signals.1; mask = m; value = v } ∷ rest
      | none ↦ rest
    ]
hits_of mapped _ _ _ = []

-- A member of a `std::set`, which is any that `operator<` puts neither before nor behind the bit.
unfoldable pub in_set : (Symbol → ℕ) → VariableBit → List VariableBit → Bool
unfolding less_bit
in_set rank b [] = false
in_set rank b (c ∷ l) = (not (less_bit rank b c) && not (less_bit rank c b)) || in_set rank b l

-- The assignments that are made at once, those that a switch makes, and `has_mask_switches`.
unfoldable pub split_hits :
    (Symbol → ℕ) → List Hit → List VariableBit → List Hit × List Hit × List VariableBit
unfolding in_set
split_hits rank [] masked = ([], [], masked)
split_hits rank (h ∷ l) masked =
    let (d, m, seen) = split_hits rank l masked in
    let (d', m', seen') = split_hits rank l (h.bit ∷ masked) in
    if is_state s1 h.mask && not (in_set rank h.bit masked)
    then (h ∷ d, m, seen)
    else (d', h ∷ m', seen')

-- The auxiliary actions for the assignments that are made at once.
unfoldable pub group : List Hit → List SigSig
group [] = []
group (h ∷ l) =
    (map (λ k. k.staging) (h ∷ l), map (λ k. k.value) (h ∷ l))
    ∷ (map (λ k. k.enable) (h ∷ l), map (λ k. state s1) (h ∷ l))
    ∷ []

unfoldable pub mask_switch : Option ℕ → Hit → Switch
mask_switch st h =
    make_switch st (h.mask ∷ [])
      (add_case
        (make_case st ((state s1 ∷ []) ∷ []) [] no_switch
          ((h.staging ∷ [], h.value ∷ []) ∷ (h.enable ∷ [], state s1 ∷ []) ∷ []))
        no_case)
      false false

-- The loop over the actions: the auxiliary actions, and the bits that get a switch.
unfoldable pub latch_actions :
    (Symbol → ℕ) → Mapping → List Action → List VariableBit → List SigSig × List Hit
unfolding hits_of split_hits group
latch_actions rank mapped [] masked = ([], [])
latch_actions rank mapped (a ∷ l) masked =
    let (d, m, seen) =
      split_hits rank (hits_of mapped (unpack a.lvalue) a.mask a.unmasked_rvalue) masked in
    let (aux, prepended) = latch_actions rank mapped l seen in (group d ++ aux, m ++ prepended)

unfoldable pub prepend : Option ℕ → List Hit → Switches → Switches
unfolding mask_switch
prepend st [] l = l
prepend st (h ∷ hs) l = add_switch (mask_switch st h) (prepend st hs l)

unfoldable mutual
  unfolding latch_actions prepend

  -- `insert_latch_signaling`.
  pub insert_latch_signaling : (Symbol → ℕ) → Mapping → Case → Case
  insert_latch_signaling rank mapped (make_case st compare actions switches aux) =
      let (new_aux, prepended) = latch_actions rank mapped actions [] in
      make_case st compare actions (prepend st prepended (latch_switches rank mapped switches))
        (aux ++ new_aux)

  pub latch_switches : (Symbol → ℕ) → Mapping → Switches → Switches
  latch_switches rank mapped no_switch = no_switch
  latch_switches rank mapped (add_switch sw l) =
      add_switch (latch_switch rank mapped sw) (latch_switches rank mapped l)

  pub latch_switch : (Symbol → ℕ) → Mapping → Switch → Switch
  latch_switch rank mapped (make_switch st signal cases f p) =
      make_switch st signal (latch_cases rank mapped cases) f p

  pub latch_cases : (Symbol → ℕ) → Mapping → Cases → Cases
  latch_cases rank mapped no_case = no_case
  latch_cases rank mapped (add_case c l) =
      add_case (insert_latch_signaling rank mapped c) (latch_cases rank mapped l)
