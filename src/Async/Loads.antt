-- ===== src/Async/Loads.antt =====
-- src/async_pattern.cc, `interpret_async_pattern`: the chain of conditionals that becomes asynchronous
-- loads.
use yosys_slang.Base.{
  ◌≤◌, ◌++◌, >>=-ext, ◌>>=◌, some_inj, ℕ, zero, suc, ◌≡◌, ◌≢◌, inl, inr, refl, sym, ap, subst, ◌∙◌,
  Bool, true, false, ◌&&◌, not, Option, none, some, List, [], ◌∷◌, if◌then◌else◌, ◌==◌, length,
  arith, Bool-cases, >>=-some,
}
use yosys_slang.Variables.{
  VariableBit, VariableBits, bitwidth, bit_at, same_bits, has_dummy_bits, of_variable, dummy,
  is_dummy,
}
use yosys_slang.Async.Defs.{
  Expression, reference, width, lhs, SignalEvent, Statement, conditional, strip, AsyncBranch,
  take_trigger, FlipFlop, infer, is_edge_of, if_else_aload_polarity,
}
use yosys_slang.Async.Conditions.{is_true, IsEvaluation, IsNarrow, holds_with, strip_lem}

some_second :
    (t : SignalEvent) (l : List SignalEvent) (r : SignalEvent × List SignalEvent)
    → some (t, l) ≡ some r
    → l ≡ r.1
some_second t l r e = ground arith

length-take_trigger :
    (v : VariableBits) (l : List SignalEvent) (r : SignalEvent × List SignalEvent)
    → take_trigger v l ≡ some r
    → length l ≡ suc (length r.1)
unfolding take_trigger
length-take_trigger v [] r e = cc
length-take_trigger v (t ∷ l) r e = elim (Bool-cases (same_bits (lhs t.expr) v)) [
  | inl f ↦ ap suc (ap length (some_second t l r (rw f at e)))
  | inr f ↦
      let (x, g, h) =
        >>=-some (take_trigger v l) (λ found. some (found.0, t ∷ found.1)) r (rw f at e) in
      ap suc (length-take_trigger v l x g ∙ ap length (some_second x.0 (t ∷ x.1) r h))
]

-- Each condition of the chain of conditionals is narrow.
abbrev pub IsNarrowChain : Statement → Type 0
IsNarrowChain (conditional p c t f) = IsNarrow c × IsNarrowChain f
IsNarrowChain s = Unit {0}

-- The branch of a chain of `n` conditionals that is taken.
abbrev pub descend : (Expression → ℕ) → ℕ → Statement → Statement
descend eval zero s = s
descend eval (suc n) (conditional p c t f) = if is_true (eval c) then t else descend eval n f
descend eval (suc n) s = s

-- The asynchronous branch whose signal is at its level, and otherwise the statement for the clock.
abbrev pub select : (VariableBit → Bool) → List AsyncBranch → Statement → Statement
select value [] rest = rest
select value (a ∷ l) rest =
    if holds_with a.polarity (value a.trigger) then a.body else select value l rest

-- A signal of one bit has the value of its bit.
abbrev pub ReadsBits : (Expression → ℕ) → (VariableBit → Bool) → Type 0
ReadsBits eval value =
    (v : VariableBits) (b : VariableBit)
    → bitwidth v ≡ 1
    → bit_at v 0 ≡ some b
    → is_true (eval (reference v)) ≡ value b

one_wide : (n : ℕ) (b : Bool) → (n == 1 && b) ≡ true → n ≡ 1
one_wide n b e = ground arith

refused :
    (w : ℕ)
    → (bitwidth (of_variable (dummy w) w) == 1 && not (has_dummy_bits (of_variable (dummy w) w)))
      ≢ true
unfolding has_dummy_bits of_variable is_dummy
refused w e = ground arith

signal_value :
    (eval : Expression → ℕ) (value : VariableBit → Bool) (c : Expression) (b : VariableBit)
    → ReadsBits eval value
    → (bitwidth (lhs c) == 1 && not (has_dummy_bits (lhs c))) ≡ true
    → bit_at (lhs c) 0 ≡ some b
    → is_true (eval c) ≡ value b
unfolding lhs
signal_value eval value (reference v) b r e f = r v b (one_wide (bitwidth v) _ e) f
signal_value eval value c b r e f = absurd (refused (width c) e)

guarded {ℓ} :
    {A : Type ℓ} (b : Bool) (o : Option A) (a : A)
    → (if b then o else none) ≡ some a
    → (b ≡ true) × (o ≡ some a)
guarded true o a e = (refl, e)
guarded false o a e = cc

module _ (eval : Expression → ℕ) (value : VariableBit → Bool) (v : IsEvaluation eval)
    (reads : ReadsBits eval value) where
  -- Where asynchronous loads are inferred, there is one for each trigger but the clock, and the
  -- branch of the conditionals that the source takes is that of the first load whose signal is at
  -- its level, or the statement that is left for the clock. Expressions have the values of IEEE
  -- 1800, an expression that names one bit has that bit's value, and each `~` that a condition is
  -- read through is of one bit.
  pub infer_lem :
      (fuel : ℕ) (triggers : List SignalEvent) (stmt : Statement) (ff : FlipFlop)
      → IsNarrowChain stmt
      → infer fuel triggers stmt ≡ some ff
      → (length triggers ≡ suc (length ff.found_async))
        × (descend eval (length ff.found_async) stmt ≡ select value ff.found_async ff.stmt)
  unfolding infer
  infer_lem fuel [] stmt ff n e = cc
  infer_lem fuel (t ∷ []) stmt ff n e =
      subst
        (λ x.
          (1 ≡ suc (length x.found_async))
          × (descend eval (length x.found_async) stmt ≡ select value x.found_async x.stmt))
        (some_inj _ ff e) (refl, refl)
  infer_lem zero (t ∷ u ∷ l) stmt ff n e = cc
  infer_lem (suc fuel) (t ∷ u ∷ l) (conditional true c yes_branch no_branch) ff n e =
      let (found, g, e1) = >>=-some _ _ ff e in
      let (bit, h, e2) = >>=-some _ _ ff e1 in
      let (inner, k, e3) = >>=-some _ _ ff e2 in
      let (test, took) = guarded _ _ found g in
      let (size, same) = infer_lem fuel found.1 no_branch inner n.1 k in
      let level =
        sym (strip_lem eval v c true n.0)
        ∙ ap (holds_with (strip c true).1)
            (signal_value eval value (strip c true).0 bit reads test h) in
      subst
        (λ x.
          (suc (suc (length l)) ≡ suc (length x.found_async))
          × (descend eval (length x.found_async) (conditional true c yes_branch no_branch)
              ≡ select value x.found_async x.stmt))
        (some_inj _ ff e3)
        (
          length-take_trigger (lhs (strip c true).0) (t ∷ u ∷ l) found took ∙ ap suc size,
          ap (λ b. if b then yes_branch else descend eval (length inner.found_async) no_branch)
                level
              ∙ ap (λ x. if holds_with (strip c true).1 (value bit) then yes_branch else x) same,
        )
  infer_lem (suc fuel) (t ∷ u ∷ l) stmt ff n e = cc

-- With fuel for all triggers but one, more fuel changes nothing: the loop never ends for want of the
-- fuel, one unit for each trigger, that `interpret_async_pattern` gives it.
pub infer_fuel :
    (fuel : ℕ) (triggers : List SignalEvent) (stmt : Statement)
    → length triggers ≤ suc fuel
    → infer (suc fuel) triggers stmt ≡ infer fuel triggers stmt
unfolding infer
infer_fuel fuel [] stmt h = refl
infer_fuel fuel (t ∷ []) stmt h = refl
infer_fuel zero (t ∷ u ∷ l) stmt h = absurd (omega arith)
infer_fuel (suc fuel) (t ∷ u ∷ l) (conditional true c yes_branch no_branch) h =
    let v = lhs (strip c true).0 in
    let join : SignalEvent × List SignalEvent → VariableBit → FlipFlop → Option FlipFlop =
      λ found bit ff. some (record ff {
        found_async =
            record { trigger = bit; polarity = (strip c true).1; body = yes_branch }
            ∷ ff.found_async;
        diags =
            (if is_edge_of (strip c true).1 found.0.edge then [] else if_else_aload_polarity ∷ [])
            ++ ff.diags;
      }) in
    let search : Option (SignalEvent × List SignalEvent) =
      if bitwidth v == 1 && not (has_dummy_bits v) then take_trigger v (t ∷ u ∷ l) else none in
    >>=-ext search
      (λ found. bit_at v 0 >>= λ bit. infer (suc fuel) found.1 no_branch >>= join found bit)
      (λ found. bit_at v 0 >>= λ bit. infer fuel found.1 no_branch >>= join found bit)
      (λ found e.
        let took =
          (guarded (bitwidth v == 1 && not (has_dummy_bits v)) (take_trigger v (t ∷ u ∷ l)) found
            e).1 in
        let same =
          infer_fuel fuel found.1 no_branch
            (omega (arith, length-take_trigger v (t ∷ u ∷ l) found took)) in
        ap (λ o. bit_at v 0 >>= λ bit. o >>= join found bit) same)
infer_fuel (suc fuel) (t ∷ u ∷ l) stmt h = refl
