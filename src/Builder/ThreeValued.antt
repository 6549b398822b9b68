-- ===== src/Builder/ThreeValued.antt =====
-- src/builder.cc, namespace ThreeValued: 1 is true, -1 is false and 0 is not known.
use yosys_slang.Base.{
  ◌<◌, ◌≡◌, subst, Bool-cases, inl, inr, Bool, true, false, not, ◌&&◌, ◌||◌, if◌then◌else◌, arith,
}
use yosys_slang.Base.Int.{ℤ, pos, negsuc, pos_part, neg_part, neg, ltb_ℤ}
use yosys_slang.Rtlil.{s0, s1, SigBit, state, is_state}

unfoldable pub and_lit : ℤ → ℤ → ℤ
and_lit a b =
    if ltb_ℤ a (pos 0) || ltb_ℤ b (pos 0)
    then negsuc 0
    else if ltb_ℤ (pos 0) a && ltb_ℤ (pos 0) b
    then pos 1
    else pos 0

unfoldable pub not_lit : ℤ → ℤ
unfolding neg
not_lit lit = neg lit

unfoldable pub or_lit : ℤ → ℤ → ℤ
or_lit a b = not_lit (and_lit (not_lit a) (not_lit b))

unfoldable pub xor_lit : ℤ → ℤ → ℤ
xor_lit a b = or_lit (and_lit a (not_lit b)) (and_lit (not_lit a) b)

unfoldable pub xnor_lit : ℤ → ℤ → ℤ
xnor_lit a b = not_lit (or_lit (and_lit a (not_lit b)) (and_lit (not_lit a) b))

unfoldable pub carry_lit : ℤ → ℤ → ℤ → ℤ
carry_lit a b c =
    if ltb_ℤ (pos 0) c
    then or_lit a b
    else if ltb_ℤ c (negsuc 0)
    then and_lit a b
    else or_lit (and_lit a b) (and_lit c (or_lit a b))

unfoldable pub convert : SigBit → ℤ
convert bit = if is_state s1 bit then pos 1 else if is_state s0 bit then negsuc 0 else pos 0

-- A literal says nothing false of the bit.
pub record Describes (lit : ℤ) (b : Bool) : Type 0 where
  pub known_true : 0 < pos_part lit → b ≡ true
  pub known_false : 0 < neg_part lit → b ≡ false

pub and_lit-Describes :
    (l m : ℤ) (b c : Bool) → Describes l b → Describes m c → Describes (and_lit l m) (b && c)
unfolding and_lit
and_lit-Describes l m b c h k = record { known_true = ground arith; known_false = ground arith }

pub not_lit-Describes : (l : ℤ) (b : Bool) → Describes l b → Describes (not_lit l) (not b)
unfolding not_lit
not_lit-Describes l b h = record { known_true = ground arith; known_false = ground arith }

pub Describes-eq : (l : ℤ) (b c : Bool) → b ≡ c → Describes l b → Describes l c
Describes-eq l b c e h = subst (Describes l) e h

pub or_lit-Describes :
    (l m : ℤ) (b c : Bool) → Describes l b → Describes m c → Describes (or_lit l m) (b || c)
unfolding or_lit
or_lit-Describes l m b c h k = Describes-eq _ _ _ (ground arith) (
    not_lit-Describes _ _
      (and_lit-Describes _ _ _ _ (not_lit-Describes l b h) (not_lit-Describes m c k)))

-- Exclusive or.
abbrev pub differ : Bool → Bool → Bool
differ true c = not c
differ false c = c

pub xor_lit-Describes :
    (l m : ℤ) (b c : Bool) → Describes l b → Describes m c → Describes (xor_lit l m) (differ b c)
unfolding xor_lit
xor_lit-Describes l m b c h k = Describes-eq _ _ _ (ground arith) (
    or_lit-Describes _ _ _ _ (and_lit-Describes _ _ _ _ h (not_lit-Describes m c k))
      (and_lit-Describes _ _ _ _ (not_lit-Describes l b h) k))

pub xnor_lit-Describes :
    (l m : ℤ) (b c : Bool)
    → Describes l b
    → Describes m c
    → Describes (xnor_lit l m) (not (differ b c))
unfolding xnor_lit xor_lit
xnor_lit-Describes l m b c h k =
    not_lit-Describes (xor_lit l m) (differ b c) (xor_lit-Describes l m b c h k)

-- The carry of a full adder.
abbrev pub majority : Bool → Bool → Bool → Bool
majority b c true = b || c
majority b c false = b && c

majority_set : (b c d : Bool) → d ≡ true → (b || c) ≡ majority b c d
majority_set b c d e = ground arith

majority_clear : (b c d : Bool) → d ≡ false → (b && c) ≡ majority b c d
majority_clear b c d e = ground arith

majority_lem : (b c d : Bool) → ((b && c) || (d && (b || c))) ≡ majority b c d
majority_lem b c d = ground arith

-- `CARRY` gives the carry of a full adder wherever it gives an answer.
pub carry_lit-Describes :
    (l m n : ℤ) (b c d : Bool)
    → Describes l b
    → Describes m c
    → Describes n d
    → Describes (carry_lit l m n) (majority b c d)
unfolding carry_lit
carry_lit-Describes l m n b c d h k i = elim (Bool-cases (ltb_ℤ (pos 0) n)) [
  | inl up ↦ rw up (
      Describes-eq _ _ _ (majority_set b c d (i.known_true (ground arith)))
        (or_lit-Describes l m b c h k))
  | inr same ↦ rw same (elim (Bool-cases (ltb_ℤ n (negsuc 0))) [
    | inl low ↦ rw low (
        Describes-eq _ _ _ (majority_clear b c d (i.known_false (ground arith)))
          (and_lit-Describes l m b c h k))
    | inr near ↦ rw near (
        Describes-eq _ _ _ (majority_lem b c d) (
          or_lit-Describes _ _ _ _ (and_lit-Describes l m b c h k)
            (and_lit-Describes _ _ _ _ i (or_lit-Describes l m b c h k))))
  ])
]

-- A value for each bit of the netlist under which the constants are what they say.
pub record IsValuation (value : SigBit → Bool) : Type 0 where
  pub of_s0 : value (state s0) ≡ false
  pub of_s1 : value (state s1) ≡ true

pub convert-Describes :
    (value : SigBit → Bool) (bit : SigBit) → IsValuation value → Describes (convert bit) (value bit)
unfolding convert
convert-Describes value (state s0) v = record {
  known_true = ground arith;
  known_false = ground arith;
}
convert-Describes value (state s1) v = record {
  known_true = ground arith;
  known_false = ground arith;
}
convert-Describes value _ v = record { known_true = ground arith; known_false = ground arith }
