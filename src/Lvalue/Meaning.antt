-- ===== src/Lvalue/Meaning.antt =====
-- src/lvalue.cc: evaluate_vbits gives the bits that an assignment is about.
use yosys_slang.Base.{
  ℕ, zero, suc, ◌+◌, ◌≤◌, ◌≡◌, refl, sym, ap, ◌∙◌, arith, Bool, true, false, ◌&&◌, &&_iff, Option,
  none, some, List, [], ◌∷◌, ◌++◌, map, length, length-append, length-map, length-take, length-drop,
  some_inj, map-append, take, drop, ◌>>=◌,
}
use yosys_slang.Variables.{
  Symbol, Variable, VariableBit, VariableBits, variable_bitwidth, expand, unpack, bitwidth,
  of_variable, append, extract, empty_bits,
}
use yosys_slang.Variables.Views.{unpack-append, unpack-extract, bitwidth-unpack}
use yosys_slang.Addressing.{Resolver, extract_variables, extract_signal}
use yosys_slang.Addressing.Static.{visible, extract_variables-signal, extract_signal_lem}
use yosys_slang.Lvalue.Defs.{
  LValue, lvalue, Descriptor, whole_variable, concatenated, range_selected, member_accessed,
  memory_written, LValues, no_lvalue, add_lvalue, bitsize, is_static, size_total, all_static,
  evaluate_vbits, evaluate_descriptor, evaluate_elements,
}

abbrev pub Places : Type 0
Places = List (Option VariableBit)

-- The places that a left-hand side names, the lowest first: none is a place that a value is dropped at.
unfoldable mutual
  unfolding extract_signal

  pub places : LValue → Option Places
  places (lvalue d size static_ contiguous) = descriptor_places d size

  descriptor_places : Descriptor → ℕ → Option Places
  descriptor_places (whole_variable v) size = some (map visible (unpack (of_variable v size)))
  descriptor_places (concatenated l) size = elements_places l
  descriptor_places (range_selected r inner) size = do
    p ← places inner
    extract_signal none r p size
  descriptor_places (member_accessed offset inner) size = do
    p ← places inner
    some (take size (drop offset p))
  descriptor_places (memory_written v a) size = none

  elements_places : LValues → Option Places
  elements_places no_lvalue = some []
  elements_places (add_lvalue e l) = do p ← elements_places l; q ← places e; some (p ++ q)

-- What the constructors make, of selects that lie within what they select from.
module _ (width_of : Symbol → ℕ) where
  unfoldable mutual
    unfolding variable_bitwidth size_total all_static

    pub IsFormed : LValue → Type 0
    IsFormed (lvalue d size static_ contiguous) = IsFormedDescriptor d size static_

    pub IsFormedDescriptor : Descriptor → ℕ → Bool → Type 0
    IsFormedDescriptor (whole_variable v) size static_ = variable_bitwidth width_of v ≡ some size
    IsFormedDescriptor (concatenated l) size static_ =
        AllFormed l × (size ≡ size_total l) × (static_ ≡ all_static l)
    IsFormedDescriptor (range_selected r inner) size static_ =
        IsFormed inner × (static_ ≡ (is_static inner && r.is_static))
    IsFormedDescriptor (member_accessed offset inner) size static_ =
        IsFormed inner × (offset + size ≤ bitsize inner) × (static_ ≡ is_static inner)
    IsFormedDescriptor (memory_written v a) size static_ = static_ ≡ false

    pub AllFormed : LValues → Type 0
    AllFormed no_lvalue = Unit
    AllFormed (add_lvalue e l) = IsFormed e × AllFormed l

-- The evaluation has given bits, which are at the places.
abbrev pub IsAt : Option VariableBits → Option Places → ℕ → Type 0
IsAt v p n =
    (ret : VariableBits) × (v ≡ some ret)
    × (p ≡ some (map visible (unpack ret)))
    × (bitwidth ret ≡ n)

take-map : (n : ℕ) (l : List VariableBit) → take n (map visible l) ≡ map visible (take n l)
take-map zero l = refl
take-map (suc n) [] = refl
take-map (suc n) (b ∷ l) = ap (◌∷◌ (visible b)) (take-map n l)

drop-map : (n : ℕ) (l : List VariableBit) → drop n (map visible l) ≡ map visible (drop n l)
drop-map zero l = refl
drop-map (suc n) [] = refl
drop-map (suc n) (b ∷ l) = drop-map n l

bitwidth-of_variable : (v : Variable) (n : ℕ) → bitwidth (of_variable v n) ≡ n
unfolding bitwidth of_variable
bitwidth-of_variable v n = refl

extract-IsAt :
    (r : Resolver) (v : Option VariableBits) (p : Option Places) (n size : ℕ)
    → r.is_static ≡ true
    → IsAt v p n
    → IsAt (v >>= λ x. extract_variables r x size) (p >>= λ x. extract_signal none r x size) size
extract-IsAt r v p n size h (x, e, q, w) =
    let (ret, f, g) = extract_variables-signal r x size h in
    let (ret', f', len, _) = extract_signal_lem none r (map visible (unpack x)) size h in
    (
      ret,
      rw e f,
      rw q g,
      bitwidth-unpack ret
          ∙ sym (length-map visible (unpack ret))
          ∙ ap length (some_inj (map visible (unpack ret)) ret' (sym g ∙ f'))
          ∙ len,
    )

member-IsAt :
    (v : Option VariableBits) (p : Option Places) (n offset size : ℕ)
    → offset + size ≤ n
    → IsAt v p n
    → IsAt (v >>= λ x. extract x offset size) (p >>= λ x. some (take size (drop offset x))) size
member-IsAt v p n offset size h (x, e, q, w) =
    let (ret, f, g) = unpack-extract x offset size (omega arith) in
    (
      ret,
      rw e f,
      rw q (
          ap some (
            ap (take size) (drop-map offset (unpack x))
            ∙ take-map size (drop offset (unpack x))
            ∙ ap (map visible) (sym g))),
      bitwidth-unpack ret
          ∙ ap length g
          ∙ (omega (
            arith,
            length-take size (drop offset (unpack x)),
            length-drop offset (unpack x),
            bitwidth-unpack x,
          )),
    )

append-IsAt :
    (u v : Option VariableBits) (p q : Option Places) (m n : ℕ)
    → IsAt u p m
    → IsAt v q n
    → IsAt (do x ← u; y ← v; some (append x y)) (do x ← p; y ← q; some (x ++ y)) (n + m)
append-IsAt u v p q m n (x, e, f, w) (y, e', f', w') = (
  append x y,
  rw (e, e') refl,
  rw (f, f')
      (ap some (
        sym (map-append visible (unpack x) (unpack y))
        ∙ ap (map visible) (sym (unpack-append x y)))),
  bitwidth-unpack (append x y)
      ∙ ap length (unpack-append x y)
      ∙ (omega (arith, length-append (unpack x) (unpack y), bitwidth-unpack x, bitwidth-unpack y)),
)

module _ (width_of : Symbol → ℕ) where
  mutual
    unfolding evaluate_vbits places IsFormed is_static size_total all_static empty_bits unpack
        bitwidth expand

    evaluate_lem :
        (lv : LValue)
        → IsFormed width_of lv
        → is_static lv ≡ true
        → IsAt (evaluate_vbits width_of lv) (places lv) (bitsize lv)
    evaluate_lem (lvalue d size s c) h e = rw e (descriptor_lem d size s h e)

    descriptor_lem :
        (d : Descriptor) (size : ℕ) (s : Bool)
        → IsFormedDescriptor width_of d size s
        → s ≡ true
        → IsAt (evaluate_descriptor width_of d size) (descriptor_places d size) size
    descriptor_lem (whole_variable v) size s h e =
        (of_variable v size, rw h refl, refl, bitwidth-of_variable v size)
    descriptor_lem (concatenated l) size s (f, n, t) e = rw n (elements_lem l f (sym t ∙ e))
    descriptor_lem (range_selected r inner) size s (f, t) e =
        let (a, b) = (&&_iff (is_static inner) r.is_static).0 (sym t ∙ e) in
        extract-IsAt r (evaluate_vbits width_of inner) (places inner) (bitsize inner) size b
          (evaluate_lem inner f a)
    descriptor_lem (member_accessed offset inner) size s (f, n, t) e =
        member-IsAt (evaluate_vbits width_of inner) (places inner) (bitsize inner) offset size n
          (evaluate_lem inner f (sym t ∙ e))
    descriptor_lem (memory_written v a) size s h e = cc

    elements_lem :
        (l : LValues)
        → AllFormed width_of l
        → all_static l ≡ true
        → IsAt (evaluate_elements width_of l) (elements_places l) (size_total l)
    elements_lem no_lvalue h e = (empty_bits, refl, refl, refl)
    elements_lem (add_lvalue x l) (f, g) e =
        let (a, b) = (&&_iff (is_static x) (all_static l)).0 e in
        append-IsAt (evaluate_elements width_of l) (evaluate_vbits width_of x) (elements_places l)
          (places x) (size_total l) (bitsize x) (elements_lem l g b) (evaluate_lem x f a)

  -- A left-hand side that the constructors made, of members that lie within what they are members of, is evaluated
  -- without a failed assertion if it is static; the bits are as many as its `bitsize`, and are those at its
  -- places, the lowest first, with dummy bits where a select has none.
  pub evaluate_vbits_lem :
      (lv : LValue)
      → IsFormed width_of lv
      → is_static lv ≡ true
      → (ret : VariableBits) × (evaluate_vbits width_of lv ≡ some ret)
        × (places lv ≡ some (map visible (unpack ret)))
        × (bitwidth ret ≡ bitsize lv)
  evaluate_vbits_lem lv h e = evaluate_lem lv h e
