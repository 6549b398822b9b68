-- ===== src/Addressing/Static.antt =====
-- src/addressing.cc: what the selects with a constant index yield.
use yosys_slang.Base.{
  ℕ, zero, suc, ◌+◌, ◌-◌, ◌≤◌, ◌<◌, ◌^◌, ◌*◌, ◌≡◌, refl, ap, sym, ◌∙◌, true, Option, none, some,
  List, [], ◌∷◌, ◌++◌, if◌then◌else◌, length, ap₂, append_assoc, replicate, arith, get_elem?,
  get_or, length-append, length-map, map, map-append, length-take, length-drop, length-replicate,
  get_elem?-append_left, get_elem?-append_right, get_elem?-take, get_elem?-drop,
  get_elem?-replicate, get_elem?-get_or, get_or_outside, dec_lt, take, drop, min, ==_iff,
}
use yosys_slang.Base.Int.{
  ℤ, pos, ◌+ℤ◌, ◌-ℤ◌, ◌*ℤ◌, neg, clamp, pos_part, neg_part, at_or, at_or_in, at_or_below, clamp-min,
  one_part_zero, pos_part-+ℤ, pos_part--ℤ, pos_part-neg, +ℤ_parts, -ℤ_parts, to_int, to_int-IsInt,
  *ℤ-pos, neg_parts, eq_of_parts,
}
use yosys_slang.Rtlil.{cut}
use yosys_slang.Variables.{
  VariableBit, VariableBits, dummy, is_dummy, expand, unpack, bitwidth, append, of_variable,
  empty_bits,
}
use yosys_slang.Variables.Views.{unpack-append, unpack-extract, bitwidth-unpack}
use yosys_slang.Addressing.Select.{
  Resolver, static_offset, extract_variables, extract_signal, embed,
}

-- A piece of a list between two runs of a padding.
module _ {ℓ} {A : Type ℓ} (x : A) (k : ℕ) (l : List A) (s m h : ℕ) (within : s + m ≤ length l) where
  abbrev padded : List A
  padded = replicate k x ++ (cut l s m ++ replicate h x)

  length-cut : length (cut l s m) ≡ m
  length-cut = omega (arith, length-take m (drop s l), length-drop s l)

  length-padded : length padded ≡ k + m + h
  length-padded = omega (
    arith,
    length-append (replicate k x) (cut l s m ++ replicate h x),
    length-append (cut l s m) (replicate h x),
    length-replicate k x,
    length-replicate h x,
    length-cut,
  )

  padded_low : (j : ℕ) → j < k → get_elem? padded j ≡ some x
  padded_low j p =
      get_elem?-append_left (replicate k x) _ j (omega (arith, length-replicate k x))
      ∙ get_elem?-replicate k x j p

  padded_middle : (j : ℕ) → j < m → get_elem? padded (k + j) ≡ some (get_or l (s + j) x)
  padded_middle j p =
      get_elem?-append_right (replicate k x) _ (k + j) (omega (arith, length-replicate k x))
      ∙ ap (get_elem? (cut l s m ++ replicate h x)) {x = k + j - length (replicate k x)} {y = j}
          (omega (arith, length-replicate k x))
      ∙ get_elem?-append_left (cut l s m) _ j (omega (arith, length-cut))
      ∙ get_elem?-take m (drop s l) j p
      ∙ get_elem?-drop s l j
      ∙ get_elem?-get_or l (s + j) x (omega arith)

  padded_high : (j : ℕ) → j < h → get_elem? padded (k + m + j) ≡ some x
  padded_high j p =
      get_elem?-append_right (replicate k x) _ (k + m + j) (omega (arith, length-replicate k x))
      ∙ ap (get_elem? (cut l s m ++ replicate h x)) {x = k + m + j - length (replicate k x)}
          {y = m + j} (omega (arith, length-replicate k x))
      ∙ get_elem?-append_right (cut l s m) _ (m + j) (omega (arith, length-cut))
      ∙ ap (get_elem? (replicate h x)) {x = m + j - length (cut l s m)} {y = j}
          (omega (arith, length-cut))
      ∙ get_elem?-replicate h x j p

  -- The piece is `l` moved up by `a`, seen through a window of `w` bits.
  padded_window :
      (a : ℤ) (w : ℕ)
      → k ≡ min (neg_part a) w
      → s ≡ min (pos_part a) (length l)
      → s + m ≡ min (pos_part a + w - neg_part a) (length l)
      → h ≡ min (w + pos_part a - (neg_part a + length l)) w
      → (length padded ≡ w) × ((j : ℕ) → j < w → get_elem? padded j ≡ some (at_or x l (a +ℤ pos j)))
  padded_window a w hk hs hm hh = (omega (arith, length-padded, one_part_zero a), at_place)
    where
      at_place : (j : ℕ) → j < w → get_elem? padded j ≡ some (at_or x l (a +ℤ pos j))
      at_place j p = elim (dec_lt j k) [
        | yes low ↦
            padded_low j low
            ∙ ap some (
                sym (
                  at_or_below x l (a +ℤ pos j) (
                    omega
                      (arith, +ℤ_parts a (pos j), one_part_zero a, one_part_zero (a +ℤ pos j)))))
        | no up ↦ elim (dec_lt j (k + m)) [
          | yes mid ↦
              ap (get_elem? padded) {x = j} {y = k + (j - k)} (omega arith)
              ∙ padded_middle (j - k) (omega arith)
              ∙ ap some (
                  sym (
                    at_or_in x l (a +ℤ pos j) (s + (j - k))
                      (omega (arith, +ℤ_parts a (pos j), one_part_zero a))))
          | no high ↦
              ap (get_elem? padded) {x = j} {y = k + m + (j - (k + m))} (omega arith)
              ∙ padded_high (j - (k + m)) (omega arith)
              ∙ ap some (
                  sym (
                    at_or_in x l (a +ℤ pos j) (pos_part a + j - neg_part a) (
                      omega
                        (arith, +ℤ_parts a (pos j), one_part_zero a, one_part_zero (a +ℤ pos j)))
                    ∙ get_or_outside l (pos_part a + j - neg_part a) x
                        (omega (arith, one_part_zero a))))
        ]
      ]

-- The three cuts that `extract` makes for an offset `a`, and `embed` for `a` = - offset.
window_fits :
    (a : ℤ) (n w : ℕ) → clamp a n + (clamp (a +ℤ pos w) n - clamp a n) ≡ clamp (a +ℤ pos w) n
window_fits a n w =
    omega (arith, clamp-min a n, clamp-min (a +ℤ pos w) n, pos_part-+ℤ a (pos w), one_part_zero a)

high_lem :
    (a : ℤ) (n w : ℕ)
    → clamp (pos w -ℤ (neg a +ℤ pos n)) w ≡ min (w + pos_part a - (neg_part a + n)) w
high_lem a n w = omega (
  arith,
  clamp-min (pos w -ℤ (neg a +ℤ pos n)) w,
  pos_part--ℤ (pos w) (neg a +ℤ pos n),
  +ℤ_parts (neg a) (pos n),
  pos_part-neg a,
  one_part_zero a,
  one_part_zero (neg a +ℤ pos n),
)

high_neg_lem :
    (a : ℤ) (n w : ℕ) → clamp (pos w -ℤ a -ℤ pos n) w ≡ min (w + neg_part a - (pos_part a + n)) w
high_neg_lem a n w = omega (
  arith,
  clamp-min (pos w -ℤ a -ℤ pos n) w,
  pos_part--ℤ (pos w -ℤ a) (pos n),
  -ℤ_parts (pos w) a,
  one_part_zero a,
  one_part_zero (pos w -ℤ a),
)

pub neg_times : (d : ℤ) (s : ℕ) → neg d *ℤ pos s ≡ neg (d *ℤ pos s)
neg_times d s = eq_of_parts _ _ (
    omega (
      arith,
      *ℤ-pos (neg d) s,
      *ℤ-pos d s,
      neg_parts (d *ℤ pos s),
      ap (λ (k : ℕ). k * s) (neg_parts d),
    ))

-- A distance and two widths that are together less than 2 ^ 31.
abbrev pub Fits : ℤ → ℕ → ℕ → Type 0
Fits d m n = (pos_part d + m + n < 2 ^ 31) × (neg_part d + m + n < 2 ^ 31)

times_zero : (a : ℤ) → a *ℤ pos 0 ≡ pos 0
times_zero a = eq_of_parts _ _ (omega (arith, *ℤ-pos a 0))

factor-le : (m s : ℕ) → m ≤ m * suc s
factor-le m s = grind arith

-- `-offset * stride`, where `offset * stride` has a distance to the bounds of an `int`.
to_int-neg :
    (o : ℤ) (stride : ℕ)
    → pos_part (o *ℤ pos stride) < 2 ^ 31
    → neg_part (o *ℤ pos stride) < 2 ^ 31
    → to_int (to_int (neg o) *ℤ pos stride) ≡ neg (o *ℤ pos stride)
to_int-neg o zero p q =
    ap to_int (times_zero (to_int (neg o)))
    ∙ to_int-IsInt (pos 0) (omega arith, omega arith)
    ∙ eq_of_parts _ _ (omega (arith, *ℤ-pos o 0, neg_parts (o *ℤ pos 0)))
to_int-neg o (suc s) p q =
    let (e, f) = *ℤ-pos o (suc s) in
    let (g, h) = pos_part-neg o in
    let (g', h') = pos_part-neg (o *ℤ pos (suc s)) in
    ap (λ x. to_int (x *ℤ pos (suc s)))
      (to_int-IsInt (neg o)
        (omega (arith, factor-le (neg_part o) s), omega (arith, factor-le (pos_part o) s)))
    ∙ ap to_int (neg_times o (suc s))
    ∙ to_int-IsInt (neg (o *ℤ pos (suc s))) (omega arith, omega arith)

-- The `int`s of `embed` are what they stand for.
embed-Fits :
    (o : ℤ) (stride w n : ℕ)
    → Fits (o *ℤ pos stride) w n
    → (to_int (o *ℤ pos stride) ≡ o *ℤ pos stride)
      × (to_int (to_int (neg o) *ℤ pos stride) ≡ neg (o *ℤ pos stride))
      × (to_int (neg (o *ℤ pos stride) +ℤ pos w) ≡ neg (o *ℤ pos stride) +ℤ pos w)
      × (to_int (to_int (pos w -ℤ o *ℤ pos stride) -ℤ pos n) ≡ pos w -ℤ o *ℤ pos stride -ℤ pos n)
embed-Fits o stride w n (h, k) =
    let d = o *ℤ pos stride in
    let (g, g') = pos_part-neg d in
    let e = +ℤ_parts (neg d) (pos w) in
    let e' = one_part_zero (neg d +ℤ pos w) in
    let f = -ℤ_parts (pos w) d in
    let f' = one_part_zero (pos w -ℤ d) in
    let i = -ℤ_parts (pos w -ℤ d) (pos n) in
    let i' = one_part_zero (pos w -ℤ d -ℤ pos n) in
    (
      to_int-IsInt d (omega arith, omega arith),
      to_int-neg o stride (omega arith) (omega arith),
      to_int-IsInt (neg d +ℤ pos w) (omega arith, omega arith),
      ap (λ x. to_int (x -ℤ pos n)) (to_int-IsInt (pos w -ℤ d) (omega arith, omega arith))
          ∙ to_int-IsInt (pos w -ℤ d -ℤ pos n) (omega arith, omega arith),
    )

module _ {ℓ} {A : Type ℓ} where
  -- The window of `w` bits at the offset `a`, as `extract` puts it together.
  abbrev window : A → ℤ → List A → ℕ → List A
  window x a l w =
      replicate (clamp (neg a) w) x
      ++ (cut l (clamp a (length l)) (clamp (a +ℤ pos w) (length l) - clamp a (length l))
          ++ replicate (clamp (pos w -ℤ (neg a +ℤ pos (length l))) w) x)

  window_lem :
      (x : A) (a : ℤ) (l : List A) (w : ℕ)
      → (length (window x a l w) ≡ w)
        × ((j : ℕ) → j < w → get_elem? (window x a l w) j ≡ some (at_or x l (a +ℤ pos j)))
  window_lem x a l w =
      let n = length l in
      let m = clamp (a +ℤ pos w) n - clamp a n in
      let within : clamp a n + m ≤ n = omega (arith, window_fits a n w, clamp-min (a +ℤ pos w) n) in
      padded_window x (clamp (neg a) w) l (clamp a n) m (clamp (pos w -ℤ (neg a +ℤ pos n)) w) within
        a w (omega (arith, clamp-min (neg a) w, pos_part-neg a)) (clamp-min a n)
        (omega (arith, window_fits a n w, clamp-min (a +ℤ pos w) n, pos_part-+ℤ a (pos w)))
        (high_lem a n w)

  extract_signal-window :
      (x : A) (r : Resolver) (val : List A) (width : ℕ)
      → r.is_static ≡ true
      → extract_signal x r val width ≡ some (window x (static_offset r *ℤ pos r.stride) val width)
  unfolding extract_signal
  extract_signal-window x r val width h =
      rw (h, (==_iff _ _).1 (window_lem x (static_offset r *ℤ pos r.stride) val width).0)

  -- A select with a constant index yields `width` bits: the bit `j` is the bit of the value at place
  -- `offset * stride + j`, or `x` where the value has none. No assertion fails.
  pub extract_signal_lem :
      (x : A) (r : Resolver) (val : List A) (width : ℕ)
      → r.is_static ≡ true
      → (ret : List A) × (extract_signal x r val width ≡ some ret)
        × (length ret ≡ width)
        × ((j : ℕ)
            → j < width
            → get_elem? ret j ≡ some (at_or x val (static_offset r *ℤ pos r.stride +ℤ pos j)))
  extract_signal_lem x r val width h =
      let (len, at_place) = window_lem x (static_offset r *ℤ pos r.stride) val width in
      (_, extract_signal-window x r val width h, len, at_place)

  -- For a constant index `embed` yields `output_len` bits: the bit `j` is the bit of the value at place
  -- `j - offset * stride`, or the padding where the value has none. No assertion fails. The distance
  -- `offset * stride` and the two widths are together less than 2 ^ 31.
  pub embed_lem :
      (padding : A) (r : Resolver) (val : List A) (output_len : ℕ)
      → r.is_static ≡ true
      → Fits (static_offset r *ℤ pos r.stride) output_len (length val)
      → (ret : List A) × (embed padding r val output_len ≡ some ret)
        × (length ret ≡ output_len)
        × ((j : ℕ)
            → j < output_len
            → get_elem? ret j
              ≡ some (at_or padding val (neg (static_offset r *ℤ pos r.stride) +ℤ pos j)))
  unfolding embed
  embed_lem padding r val output_len h fits =
      let o = static_offset r *ℤ pos r.stride in
      let a = neg o in
      let n = length val in
      let m = clamp (a +ℤ pos output_len) n - clamp a n in
      let within : clamp a n + m ≤ n =
        omega (arith, window_fits a n output_len, clamp-min (a +ℤ pos output_len) n) in
      let high = clamp (pos output_len -ℤ o -ℤ pos n) output_len in
      let facts =
        padded_window padding (clamp o output_len) val (clamp a n) m high within a output_len
          (omega (arith, clamp-min o output_len, pos_part-neg o)) (clamp-min a n)
          (omega (
            arith,
            window_fits a n output_len,
            clamp-min (a +ℤ pos output_len) n,
            pos_part-+ℤ a (pos output_len),
          ))
          (omega (arith, high_neg_lem o n output_len, pos_part-neg o)) in
      let (up, down, end, top) = embed-Fits (static_offset r) r.stride output_len n fits in
      (_, rw (h, up, down, end, top, (==_iff _ _).1 facts.0) refl, facts.0, facts.1)

-- A bit as the reader of a select sees it: nothing of a dummy.
abbrev pub visible : VariableBit → Option VariableBit
visible b = if is_dummy b.variable then none else some b

map-visible-expand :
    (width base n : ℕ) → map visible (expand (dummy width) base n) ≡ replicate n none
unfolding expand is_dummy
map-visible-expand width base zero = refl
map-visible-expand width base (suc n) = ap (◌∷◌ none) (map-visible-expand width (base + 1) n)

map-take {ℓ κ} :
    {A : Type ℓ} {B : Type κ} (f : A → B) (n : ℕ) (l : List A) → map f (take n l) ≡ take n (map f l)
map-take f zero l = refl
map-take f (suc n) [] = refl
map-take f (suc n) (x ∷ l) = ap (◌∷◌ (f x)) (map-take f n l)

map-drop {ℓ κ} :
    {A : Type ℓ} {B : Type κ} (f : A → B) (n : ℕ) (l : List A) → map f (drop n l) ≡ drop n (map f l)
map-drop f zero l = refl
map-drop f (suc n) [] = refl
map-drop f (suc n) (x ∷ l) = map-drop f n l

map-visible-cut :
    (val mid : VariableBits) (s m : ℕ)
    → unpack mid ≡ take m (drop s (unpack val))
    → map visible (unpack mid) ≡ cut (map visible (unpack val)) s m
map-visible-cut val mid s m q =
    ap (map visible) q
    ∙ map-take visible m (drop s (unpack val))
    ∙ ap (take m) (map-drop visible s (unpack val))

map-visible-dummy : (n : ℕ) → map visible (unpack (of_variable (dummy n) n)) ≡ replicate n none
unfolding unpack of_variable
map-visible-dummy n = map-visible-expand n 0 n

-- Three parts laid one behind the other, the outer two of dummies.
map-visible_parts :
    (val mid : VariableBits) (k s m h : ℕ)
    → unpack mid ≡ take m (drop s (unpack val))
    → map visible (
        unpack (
          append
            (append (append empty_bits (of_variable (dummy k) k)) mid)
            (of_variable (dummy h) h)))
      ≡ replicate k none ++ (cut (map visible (unpack val)) s m ++ replicate h none)
unfolding empty_bits unpack expand
map-visible_parts val mid k s m h q =
    ap (map visible) (
      unpack-append (append (append empty_bits (of_variable (dummy k) k)) mid)
        (of_variable (dummy h) h)
      ∙ ap (λ l. l ++ unpack (of_variable (dummy h) h))
          (unpack-append (append empty_bits (of_variable (dummy k) k)) mid
            ∙ ap (λ l. l ++ unpack mid) (unpack-append empty_bits (of_variable (dummy k) k))))
    ∙ map-append visible (unpack (of_variable (dummy k) k) ++ unpack mid) _
    ∙ ap₂ ◌++◌
        (map-append visible (unpack (of_variable (dummy k) k)) (unpack mid)
          ∙ ap₂ ◌++◌ (map-visible-dummy k) (map-visible-cut val mid s m q))
        (map-visible-dummy h)
    ∙ append_assoc (replicate k none) _ _

-- The two instances of the `extract` template agree: a select of variable bits with a constant
-- index fails no assertion, and yields the same bits as the select of signals, with dummies where
-- that one has `x`.
pub extract_variables-signal :
    (r : Resolver) (val : VariableBits) (width : ℕ)
    → r.is_static ≡ true
    → (ret : VariableBits) × (extract_variables r val width ≡ some ret)
      × (extract_signal none r (map visible (unpack val)) width ≡ some (map visible (unpack ret)))
unfolding extract_variables
extract_variables-signal r val width h =
    let a = static_offset r *ℤ pos r.stride in
    let n = bitwidth val in
    let k = clamp (neg a) width in
    let s = clamp a n in
    let m = clamp (a +ℤ pos width) n - s in
    let high = clamp (pos width -ℤ (neg a +ℤ pos n)) width in
    let (mid, p, q) =
      unpack-extract val s m (omega (arith, window_fits a n width, clamp-min (a +ℤ pos width) n)) in
    let ret =
      append (append (append empty_bits (of_variable (dummy k) k)) mid)
        (of_variable (dummy high) high) in
    let same_n : length (map visible (unpack val)) ≡ n =
      length-map visible (unpack val) ∙ sym (bitwidth-unpack val) in
    let shape : map visible (unpack ret) ≡ window none a (map visible (unpack val)) width =
      rw same_n (map-visible_parts val mid k s m high q) in
    let len : bitwidth ret ≡ width =
      bitwidth-unpack ret
      ∙ sym (length-map visible (unpack ret))
      ∙ ap length shape
      ∙ (window_lem none a (map visible (unpack val)) width).0 in
    (
      ret,
      rw (h, p, (==_iff (bitwidth ret) width).1 len) refl,
      extract_signal-window none r (map visible (unpack val)) width h ∙ ap some (sym shape),
    )
