-- ===== src/Async/Examples.antt =====
-- An `always` block with an asynchronous reset.
use yosys_slang.Base.{
  ℕ, zero, suc, ◌-◌, ◌%◌, ◌^◌, ◌<◌, ◌≡◌, refl, Bool, true, false, none, some, List, [], ◌∷◌, ◌++◌,
  if◌then◌else◌, ltb, ◌==◌, length, arith, inl, inr, ap, Bool-cases,
}
use native.Mathlib.Nat.{pow-suc, pow-le-pow_right, mod-lt, le_trans}
use yosys_slang.Variables.{
  VariableBits, static, bits, bitwidth, bit_at, same_bits, same_bit, has_dummy_bits,
}
use yosys_slang.Async.Defs.{
  Expression, reference, logical_not, bitwise_not, equality, conversion, other_expression, width,
  lhs, SignalEvent, Statement, block, list, expression_statement, conditional, no_statement,
  add_statement, other_statement, peel, strip, infer, FlipFlop, pos_edge, neg_edge, Settings,
  signal_event, always, handle_always, Diag, comb_like, edge_triggered, nothing, take_trigger,
  TimingControl,
}
use yosys_slang.Async.Events.{any_implicit, edges, handle_always_lem}
use yosys_slang.Async.Steps.{steps, peel_lem}
use yosys_slang.Async.Conditions.{IsEvaluation, is_true, less_of, holds_with, strip_lem}
use yosys_slang.Async.Loads.{descend, select, infer_lem, infer_fuel}

abbrev clock : SignalEvent
clock = record {
  edge = pos_edge;
  expr = reference (bits (record { variable = static 0; offset = 0 } ∷ []));
  has_iff = false;
}

abbrev reset_bits : VariableBits
reset_bits = bits (record { variable = static 1; offset = 0 } ∷ [])

abbrev reset : SignalEvent
reset = record { edge = neg_edge; expr = reference reset_bits; has_iff = false }

abbrev settings : Settings
settings = record { allow_dual_edge_ff = false; ignore_timing = false }

abbrev events : List TimingControl
events = signal_event clock ∷ signal_event reset ∷ []

handle_always_lem_example :
    (diags : List Diag) × (handle_always settings always events
      ≡ some (
        (if any_implicit settings always events
            then comb_like
            else if ltb 0 (length (edges settings events))
            then edge_triggered (edges settings events)
            else nothing),
        diags,
      ))
handle_always_lem_example = handle_always_lem settings always events ((λ e. cc), ((λ e. cc), tt))

-- `if (!reset) 1; else 2;`, behind a declaration.
abbrev branches : Statement
branches =
    conditional true (logical_not (reference reset_bits)) (other_statement 1) (other_statement 2)

abbrev body : Statement
body =
    block true none
      (list (add_statement (expression_statement 0) (add_statement branches no_statement)))

peel_lem_example :
    (peel true none [] body).prologue ++ steps (peel true none [] body).stmt ≡ steps body
peel_lem_example = peel_lem true body

positive_power : (w : ℕ) → 0 < 2 ^ w
positive_power zero = omega arith
positive_power (suc w) = omega (arith, positive_power w, pow-suc 2 w)

-- Every bit of every signal is 1.
abbrev eval : Expression → ℕ
eval (reference v) = 2 ^ bitwidth v - 1
eval (logical_not e) = if eval e == 0 then 1 else 0
eval (bitwise_not e) = 2 ^ width e - 1 - eval e
eval (equality e w c) = if eval e == c then 1 else 0
eval (conversion e w) = let x = eval e in if ltb (width e) w then x else x % 2 ^ w
eval (other_expression w) = 0

one_small : (b : Bool) → (if b then 1 else 0) < 2 ^ 1
one_small b = ground arith

below : (x n : ℕ) → 0 < n → n - 1 - x < n
below x n h = omega arith

converted_small : (x m w : ℕ) → x < 2 ^ m → (if ltb m w then x else x % 2 ^ w) < 2 ^ w
converted_small x m w h = elim (Bool-cases (ltb m w)) [
  | inl e ↦ rw e (le_trans h (pow-le-pow_right (omega arith) (omega (arith, less_of m w e))))
  | inr e ↦ rw e (mod-lt x (positive_power w))
]

eval-bounded : (e : Expression) → eval e < 2 ^ width e
eval-bounded (reference v) = omega (arith, positive_power (bitwidth v))
eval-bounded (logical_not e) = one_small (eval e == 0)
eval-bounded (bitwise_not e) = below (eval e) (2 ^ width e) (positive_power (width e))
eval-bounded (equality e w c) = one_small (eval e == c)
eval-bounded (conversion e w) = converted_small (eval e) (width e) w (eval-bounded e)
eval-bounded (other_expression w) = positive_power w

inverted_bit : (x n : ℕ) → x < n → n ≡ 2 → n - 1 - x ≡ (if x == 0 then 1 else 0)
inverted_bit x n h e = ground arith

less_bool : (m n : ℕ) → m < n → ltb m n ≡ true
less_bool m n h = ground arith

extended : (x m w : ℕ) → m < w → (if ltb m w then x else x % 2 ^ w) ≡ x
extended x m w h = rw (less_bool m w h) refl

eval-IsEvaluation : IsEvaluation eval
eval-IsEvaluation = record {
  bounded = eval-bounded;
  not_value = λ e. refl;
  invert_value = λ e h. inverted_bit (eval e) (2 ^ width e) (eval-bounded e) (ap (λ w. 2 ^ w) h);
  equal_value = λ e w c. refl;
  widened = λ e w h. ap is_true (extended (eval e) (width e) w h);
}

strip_lem_example :
    holds_with
      (strip (logical_not (reference reset_bits)) true).1
      (is_true (eval (strip (logical_not (reference reset_bits)) true).0))
    ≡ holds_with true (is_true (eval (logical_not (reference reset_bits))))
strip_lem_example = strip_lem eval eval-IsEvaluation (logical_not (reference reset_bits)) true tt

abbrev wide_test : Expression
wide_test = equality (bitwise_not (conversion (reference reset_bits) 32)) 32 0

-- The signal of that condition is true.
wide_test_signal : is_true (eval (reference reset_bits)) ≡ true
unfolding bitwidth
wide_test_signal = refl

abbrev inferred : FlipFlop
inferred = record {
  clock = clock;
  stmt = other_statement 2;
  found_async =
      record {
        trigger = record { variable = static 1; offset = 0 };
        polarity = false;
        body = other_statement 1;
      }
      ∷ [];
  diags = [];
}

all_ones : (w : ℕ) → w ≡ 1 → is_true (2 ^ w - 1) ≡ true
all_ones w e = rw e refl

infer_lem_example :
    (length (clock ∷ reset ∷ []) ≡ 2)
    × (descend eval 1 branches ≡ select (λ b. true) inferred.found_async (other_statement 2))
unfolding infer strip lhs take_trigger bitwidth bit_at same_bits same_bit has_dummy_bits
infer_lem_example =
    infer_lem eval (λ b. true) eval-IsEvaluation (λ v b h k. all_ones (bitwidth v) h) 2
      (clock ∷ reset ∷ []) branches inferred (tt, tt) refl

infer_fuel_example : infer 2 (clock ∷ reset ∷ []) branches ≡ infer 1 (clock ∷ reset ∷ []) branches
infer_fuel_example = infer_fuel 1 (clock ∷ reset ∷ []) branches (omega arith)
