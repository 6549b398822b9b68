-- ===== src/Addressing/Shift/Laws.antt =====
-- src/addressing.cc: `shift_up` and `shift_down` agree with the selects whose index is a constant.
use yosys_slang.Base.{
  ℕ, suc, ◌+◌, ◌-◌, ◌*◌, ◌/◌, ◌%◌, ◌<◌, ◌≡◌, inl, inr, refl, ap, sym, ◌∙◌, true, some, List, ◌++◌,
  ◌==◌, length, replicate, arith, get_elem?, length-drop, length-replicate, get_elem?-drop,
  get_elem?-get_or, list_ext, Bool-cases, ==_iff, Option, none, map, length-map, if◌then◌else◌,
  subst,
}
use yosys_slang.Base.Int.{
  ℤ, pos, negsuc, ◌+ℤ◌, ◌-ℤ◌, ◌*ℤ◌, neg, IsInt, to_int, to_int-IsInt, at_or, at_or_below,
  at_or_padded, *ℤ-pos, int_laws, +ℤ_parts, eq_of_parts, one_part_zero,
}
use yosys_slang.Addressing.Select.{Resolver, static_offset, extract_signal, embed}
use yosys_slang.Addressing.Static.{extract_signal_lem, embed_lem, Fits, neg_times}
use yosys_slang.Addressing.Lanes.{
  lane_from, written, written-some, get_elem?-map-some, get_or-lane_from, write_lanes_lem,
  length-write_lanes, ceil_bound,
}
use yosys_slang.Addressing.Shift.{
  Shifter, shift_down_by, shift_down_bitwise, shift_up_by, shift_up_bitwise, marked_lanes, by_lanes,
  shift_down, shift_up,
}

module _ {ℓ} {A : Type ℓ} (sh : Shifter A) where
  shift_down_by_bit :
      (base raw : ℤ) (val : List A) (w j : ℕ)
      → j < w
      → get_elem? (shift_down_by sh base raw val w) j
        ≡ some (at_or sh.fill val (raw +ℤ base +ℤ pos j))
  unfolding shift_down_by
  shift_down_by_bit (pos n) raw val w j h =
      get_elem?-drop n (sh.shift val raw (w + n)) j
      ∙ sh.shift_bit val raw (w + n) (n + j) (omega arith)
      ∙ ap (λ a. some (at_or sh.fill val a)) {x = raw +ℤ pos (n + j)} (omega int_laws)
  shift_down_by_bit (negsuc n) raw val w j h =
      sh.shift_bit (replicate (suc n) sh.fill ++ val) raw w j h
      ∙ ap some (at_or_padded (suc n) sh.fill val (raw +ℤ pos j))
      ∙ ap (λ a. some (at_or sh.fill val a)) {x = raw +ℤ pos j -ℤ pos (suc n)} (omega int_laws)

  shift_up_by_bit :
      (base raw : ℤ) (val : List A) (w j : ℕ)
      → j < w
      → get_elem? (shift_up_by sh base raw val w) j
        ≡ some (at_or sh.fill val (neg (raw +ℤ base) +ℤ pos j))
  unfolding shift_up_by
  shift_up_by_bit (pos n) raw val w j h =
      sh.shift_bit (replicate n sh.fill ++ val) (neg raw) w j h
      ∙ ap some (at_or_padded n sh.fill val (neg raw +ℤ pos j))
      ∙ ap (λ a. some (at_or sh.fill val a)) {x = neg raw +ℤ pos j -ℤ pos n} (omega int_laws)
  shift_up_by_bit (negsuc n) raw val w j h =
      get_elem?-drop (suc n) (sh.shift val (neg raw) (w + suc n)) j
      ∙ sh.shift_bit val (neg raw) (w + suc n) (suc n + j) (omega arith)
      ∙ ap (λ a. some (at_or sh.fill val a)) {x = neg raw +ℤ pos (suc n + j)} (omega int_laws)

  length-shift_down_by :
      (base raw : ℤ) (val : List A) (w : ℕ) → length (shift_down_by sh base raw val w) ≡ w
  unfolding shift_down_by
  length-shift_down_by (pos n) raw val w =
      omega (arith, length-drop n (sh.shift val raw (w + n)), sh.length_shift val raw (w + n))
  length-shift_down_by (negsuc n) raw val w = sh.length_shift _ raw w

  length-shift_up_by :
      (base raw : ℤ) (val : List A) (w : ℕ) → length (shift_up_by sh base raw val w) ≡ w
  unfolding shift_up_by
  length-shift_up_by (pos n) raw val w = sh.length_shift _ (neg raw) w
  length-shift_up_by (negsuc n) raw val w = omega (
    arith,
    length-drop (suc n) (sh.shift val (neg raw) (w + suc n)),
    sh.length_shift val (neg raw) (w + suc n),
  )

  -- A place in a lane is a place in the whole.
  at_or_lane :
      (val : List A) (s i : ℕ) (a : ℤ)
      → i < s
      → at_or sh.fill (lane_from (suc (length val)) sh.fill val s i) a
        ≡ at_or sh.fill val (a *ℤ pos s +ℤ pos i)
  at_or_lane val s i (pos m) h =
      get_or-lane_from (suc (length val)) sh.fill val s i m (omega arith) (omega arith)
      ∙ ap (at_or sh.fill val) {x = pos (i + m * s)}
          (eq_of_parts _ _ (omega (arith, *ℤ-pos (pos m) s, +ℤ_parts (pos m *ℤ pos s) (pos i))))
  at_or_lane val s i (negsuc m) h = sym (
      at_or_below sh.fill val (negsuc m *ℤ pos s +ℤ pos i) (
        grind (
          arith,
          *ℤ-pos (negsuc m) s,
          +ℤ_parts (negsuc m *ℤ pos s) (pos i),
          one_part_zero (negsuc m *ℤ pos s +ℤ pos i),
        )))

  -- A bitwise select of width `w` that moves the value down by `d`.
  abbrev MovesBy : ℤ → (List A → ℕ → List A) → Type ℓ
  MovesBy d bitwise =
      ((val : List A) (w : ℕ) → length (bitwise val w) ≡ w)
      × ((val : List A) (w j : ℕ)
          → j < w
          → get_elem? (bitwise val w) j ≡ some (at_or sh.fill val (d +ℤ pos j)))

  place_in_lane :
      (d : ℤ) (s i t : ℕ) → (d +ℤ pos t) *ℤ pos s +ℤ pos i ≡ d *ℤ pos s +ℤ pos (i + t * s)
  place_in_lane d s i t = eq_of_parts _ _ (
      omega (
        arith,
        +ℤ_parts ((d +ℤ pos t) *ℤ pos s) (pos i),
        +ℤ_parts (d *ℤ pos s) (pos (i + t * s)),
        *ℤ-pos (d +ℤ pos t) s,
        *ℤ-pos d s,
        ap (λ (k : ℕ). k * s) (+ℤ_parts d (pos t)),
      ))

  by_lanes_place :
      (d : ℤ) (bitwise : List A → ℕ → List A) (s : ℕ) (val : List A) (w i t : ℕ)
      → MovesBy d bitwise
      → i < s
      → i + t * s < w
      → get_elem? (marked_lanes sh bitwise s val w) (i + t * s)
        ≡ some (some (at_or sh.fill val (d *ℤ pos s +ℤ pos (i + t * s))))
  unfolding marked_lanes
  by_lanes_place d bitwise s val w i t (len, bit) h k =
      let lane =
        λ (i : ℕ). bitwise (lane_from (suc (length val)) sh.fill val s i) ((w - i + s - 1) / s) in
      let inside : t < length (map some (lane i)) = omega (
        arith,
        length-map some (lane i),
        len (lane_from (suc (length val)) sh.fill val s i) ((w - i + s - 1) / s),
        ceil_bound t s i w h k,
      ) in
      write_lanes_lem (λ i. map some (lane i)) (replicate w none) s 0 s i t none (omega arith)
        (omega arith) (omega arith) inside (omega (arith, length-replicate {A = Option A} w none))
      ∙ sym (get_elem?-get_or (map some (lane i)) t none inside)
      ∙ get_elem?-map-some (lane i) t _ (
          bit _ _ t (ceil_bound t s i w h k)
          ∙ ap some (at_or_lane val s i (d +ℤ pos t) h)
          ∙ ap (λ a. some (at_or sh.fill val a)) (place_in_lane d s i t))

  by_lanes_bit :
      (d : ℤ) (bitwise : List A → ℕ → List A) (s : ℕ) (val : List A) (w p : ℕ)
      → MovesBy d bitwise
      → 0 < s
      → p < w
      → get_elem? (marked_lanes sh bitwise s val w) p
        ≡ some (some (at_or sh.fill val (d *ℤ pos s +ℤ pos p)))
  by_lanes_bit d bitwise s val w p m h k =
      let e : p % s + p / s * s ≡ p = grind arith in
      rw e at (by_lanes_place d bitwise s val w (p % s) (p / s) m (grind arith) (omega arith))

  length-marked_lanes :
      (bitwise : List A → ℕ → List A) (s : ℕ) (val : List A) (w : ℕ)
      → length (marked_lanes sh bitwise s val w) ≡ w
  unfolding marked_lanes
  length-marked_lanes bitwise s val w =
      length-write_lanes _ (replicate w none) s 0 s ∙ length-replicate w none

  -- The lanes put together are a list that has their bits, and no place of it is left out.
  by_lanes_lem :
      (d : ℤ) (bitwise : List A → ℕ → List A) (s : ℕ) (val l : List A) (w : ℕ)
      → MovesBy d bitwise
      → 0 < s
      → length l ≡ w
      → ((j : ℕ) → j < w → get_elem? l j ≡ some (at_or sh.fill val (d *ℤ pos s +ℤ pos j)))
      → by_lanes sh bitwise s val w ≡ some l
  unfolding by_lanes
  by_lanes_lem d bitwise s val l w m h len bit =
      ap written (
        list_ext (marked_lanes sh bitwise s val w) (map some l)
          (length-marked_lanes bitwise s val w ∙ sym len ∙ sym (length-map some l))
          (λ j k.
            let k' : j < w = omega (arith, length-marked_lanes bitwise s val w) in
            by_lanes_bit d bitwise s val w j m h k' ∙ sym (get_elem?-map-some l j _ (bit j k'))))
      ∙ written-some l

  one_lane : (d : ℤ) → d ≡ d *ℤ pos 1
  one_lane d = eq_of_parts _ _ (omega (arith, *ℤ-pos d 1))

  -- The offset of a sum that is an `int`.
  offset_lem :
      (r : Resolver)
      → IsInt r.raw_value
      → IsInt (r.raw_value +ℤ r.base_offset)
      → static_offset r ≡ r.raw_value +ℤ r.base_offset
  unfolding static_offset
  offset_lem r h k =
      ap (λ a. to_int (a +ℤ r.base_offset)) (to_int-IsInt r.raw_value h)
      ∙ to_int-IsInt (r.raw_value +ℤ r.base_offset) k

  -- What a select with a signal as index, which moves the value by `d` elements, yields.
  selected :
      (d : ℤ) (bitwise : List A → ℕ → List A) (s : ℕ) (val l : List A) (w : ℕ)
      → MovesBy d bitwise
      → 0 < s
      → length l ≡ w
      → ((j : ℕ) → j < w → get_elem? l j ≡ some (at_or sh.fill val (d *ℤ pos s +ℤ pos j)))
      → (if s == 1 then some (bitwise val w) else by_lanes sh bitwise s val w) ≡ some l
  selected d bitwise s val l w m h len bit = elim (Bool-cases (s == 1)) [
    | inl one ↦
        let e : s ≡ 1 = (==_iff s 1).0 one in
        rw one (
          ap some (
            list_ext (bitwise val w) l (m.0 val w ∙ sym len) (λ j k.
              let k' : j < w = omega (arith, m.0 val w) in
              m.1 val w j k'
              ∙ ap (λ a. some (at_or sh.fill val (a +ℤ pos j)))
                  (one_lane d ∙ ap (λ k. d *ℤ pos k) (sym e))
              ∙ sym (bit j k'))))
    | inr more ↦ rw more (by_lanes_lem d bitwise s val l w m h len bit)
  ]

  -- The stride is positive, and the index signal has a value that is an `int` of 32 bits, as is its sum
  -- with the base offset. Then the circuit that `shift_down` builds yields what the select with that
  -- index as a constant yields.
  pub shift_down-extract :
      (r : Resolver) (val : List A) (output_len : ℕ)
      → 0 < r.stride
      → IsInt r.raw_value
      → IsInt (r.raw_value +ℤ r.base_offset)
      → shift_down sh r val output_len
        ≡ extract_signal sh.fill (record r { is_static = true }) val output_len
  unfolding shift_down shift_down_bitwise
  shift_down-extract r val output_len h i k = elim (Bool-cases r.is_static) [
    | inl e ↦ rw e
    | inr e ↦
        let (ret, f, len, bit) =
          extract_signal_lem sh.fill (record r { is_static = true }) val output_len refl in
        let o : static_offset (record r { is_static = true }) ≡ r.raw_value +ℤ r.base_offset =
          offset_lem (record r { is_static = true }) i k in
        rw e (
          selected (r.raw_value +ℤ r.base_offset) (shift_down_bitwise sh r) r.stride val ret
            output_len
            (
              length-shift_down_by r.base_offset r.raw_value,
              shift_down_by_bit r.base_offset r.raw_value,
            )
            h len
            (λ j p. bit j p ∙ ap (λ a. some (at_or sh.fill val (a *ℤ pos r.stride +ℤ pos j))) o)
          ∙ sym f)
  ]

  -- The stride is positive, the index signal has a value that is an `int` of 32 bits, so is its sum with
  -- the base offset, and the distance in bits and the two widths are together less than 2 ^ 31. Then the
  -- circuit that `shift_up` builds yields what `embed` with that index as a constant yields.
  pub shift_up-embed :
      (r : Resolver) (val : List A) (output_len : ℕ)
      → 0 < r.stride
      → IsInt r.raw_value
      → IsInt (r.raw_value +ℤ r.base_offset)
      → Fits ((r.raw_value +ℤ r.base_offset) *ℤ pos r.stride) output_len (length val)
      → shift_up sh r val output_len ≡ embed sh.fill (record r { is_static = true }) val output_len
  unfolding shift_up shift_up_bitwise
  shift_up-embed r val output_len h i k fits = elim (Bool-cases r.is_static) [
    | inl e ↦ rw e
    | inr e ↦
        let o : static_offset (record r { is_static = true }) ≡ r.raw_value +ℤ r.base_offset =
          offset_lem (record r { is_static = true }) i k in
        let (ret, f, len, bit) =
          embed_lem sh.fill (record r { is_static = true }) val output_len refl
            (subst (λ a. Fits (a *ℤ pos r.stride) output_len (length val)) (sym o) fits) in
        rw e (
          selected (neg (r.raw_value +ℤ r.base_offset)) (shift_up_bitwise sh r) r.stride val ret
            output_len
            (
              length-shift_up_by r.base_offset r.raw_value,
              shift_up_by_bit r.base_offset r.raw_value,
            )
            h len
            (λ j p.
              bit j p
              ∙ ap (λ a. some (at_or sh.fill val (neg (a *ℤ pos r.stride) +ℤ pos j))) o
              ∙ ap (λ a. some (at_or sh.fill val (a +ℤ pos j)))
                  (sym (neg_times (r.raw_value +ℤ r.base_offset) r.stride)))
          ∙ sym f)
  ]
