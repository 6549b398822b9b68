-- ===== src/Addressing/Shift.antt =====
-- src/addressing.cc: `shift_up` and `shift_down`, whose index is a signal. A circuit is read at one
-- instant, at which the index signal has the value `raw_value`.
pub mod Laws
use yosys_slang.Base.{
  ℕ, zero, suc, ◌+◌, ◌-◌, ◌*◌, ◌/◌, ◌%◌, ◌≤◌, ◌<◌, ◌≡◌, ◌⊎◌, inl, inr, refl, ap, sym, ◌∙◌, Bool,
  true, false, Option, none, some, List, [], ◌∷◌, ◌++◌, ◌==◌, if◌then◌else◌, length, replicate,
  arith, get_elem?, get_or, drop, length-drop, length-append, length-replicate,
  get_elem?-append_left, get_elem?-append_right, get_elem?-drop, get_elem?-replicate,
  get_elem?-get_or, dec_lt, ltb, map, ◌>>=◌,
}
use yosys_slang.Base.Int.{ℤ, pos, negsuc, ◌+ℤ◌, ◌-ℤ◌, ◌*ℤ◌, neg, pos_part, neg_part, at_or, ltb_ℤ}
use yosys_slang.Rtlil.{cut_end}
use yosys_slang.Addressing.Select.{Resolver, static_offset, extract_signal, embed}
use yosys_slang.Addressing.Lanes.{
  lane_from, write_lanes, written, get_or-lane_from, write_lanes_lem, length-write_lanes,
  ceil_bound,
}

-- What Yosys documents of its `$shiftx` cell (filling with `x`) and, for an unsigned first operand,
-- of its `$shift` cell (filling with 0): with a signed amount `v` the bit `j` of the result is the
-- bit `v + j` of the operand.
pub record Shifter {ℓ} (A : Type ℓ) : Type ℓ where
  pub fill : A
  pub shift : List A → ℤ → ℕ → List A
  pub length_shift : (a : List A) (v : ℤ) (w : ℕ) → length (shift a v w) ≡ w
  pub shift_bit :
      (a : List A) (v : ℤ) (w j : ℕ)
      → j < w
      → get_elem? (shift a v w) j ≡ some (at_or fill a (v +ℤ pos j))

module _ {ℓ} {A : Type ℓ} (sh : Shifter A) where
  -- The body of `shift_down_bitwise`, by the sign of `base_offset`.
  unfoldable pub shift_down_by : ℤ → ℤ → List A → ℕ → List A
  shift_down_by (pos n) raw val output_len = cut_end (sh.shift val raw (output_len + n)) n
  shift_down_by (negsuc n) raw val output_len =
      sh.shift (replicate (suc n) sh.fill ++ val) raw output_len

  unfoldable pub shift_down_bitwise : Resolver → List A → ℕ → List A
  unfolding shift_down_by
  shift_down_bitwise r val output_len = shift_down_by r.base_offset r.raw_value val output_len

  -- The body of `shift_up_bitwise`, by the sign of `base_offset`: `fill` is `x` where `oor_undef`
  -- holds and 0 otherwise, with the cell that goes with it. `netlist.Neg(raw_signal, true)` has the
  -- value `- raw_value`.
  unfoldable pub shift_up_by : ℤ → ℤ → List A → ℕ → List A
  shift_up_by (pos n) raw val output_len =
      sh.shift (replicate n sh.fill ++ val) (neg raw) output_len
  shift_up_by (negsuc n) raw val output_len =
      cut_end (sh.shift val (neg raw) (output_len + suc n)) (suc n)

  unfoldable pub shift_up_bitwise : Resolver → List A → ℕ → List A
  unfolding shift_up_by
  shift_up_bitwise r val output_len = shift_up_by r.base_offset r.raw_value val output_len

  -- The loops of `shift_up` and `shift_down` over the lanes; none is the marker `RTLIL::Sm`.
  unfoldable pub marked_lanes : (List A → ℕ → List A) → ℕ → List A → ℕ → List (Option A)
  marked_lanes bitwise stride val output_len =
      write_lanes
        (λ i. map some (
          bitwise (lane_from (suc (length val)) sh.fill val stride i)
            ((output_len - i + stride - 1) / stride)))
        (replicate output_len none) stride 0 stride

  unfoldable pub by_lanes : (List A → ℕ → List A) → ℕ → List A → ℕ → Option (List A)
  unfolding marked_lanes written
  by_lanes bitwise stride val output_len = written (marked_lanes bitwise stride val output_len)

  unfoldable pub shift_down : Resolver → List A → ℕ → Option (List A)
  unfolding shift_down_bitwise by_lanes
  shift_down r val output_len =
      if r.is_static
      then extract_signal sh.fill r val output_len
      else if r.stride == 1
      then some (shift_down_bitwise r val output_len)
      else by_lanes (shift_down_bitwise r) r.stride val output_len

  unfoldable pub shift_up : Resolver → List A → ℕ → Option (List A)
  unfolding shift_up_bitwise by_lanes
  shift_up r val output_len =
      if r.is_static
      then embed sh.fill r val output_len
      else if r.stride == 1
      then some (shift_up_bitwise r val output_len)
      else by_lanes (shift_up_bitwise r) r.stride val output_len
