-- ===== src/Readmem/Aligned.antt =====
-- src/slang_frontend.cc, handle_readmem: the cursor is behind the words that were read.
use yosys_slang.Base.{
  elim_true, elim_false, ℕ, suc, ◌+◌, ◌-◌, ◌*◌, ◌≡◌, refl, sym, ap, ◌∙◌, arith, Bool, true, false,
  ◌||◌, Option, none, some, List, [], ◌∷◌, if◌then◌else◌, ◌==◌, length, replicate, take, >>=-some,
  some_inj, length-append, length-take, length-replicate, Bool-cases, Option-cases, inl, inr, subst,
  if_true, if_false,
}
use native.Mathlib.Nat.{suc-mul, zero-mul}
use yosys_slang.Base.Int.{ℤ, eqb_ℤ, int_laws}
use mathlib.Core.List.{reverse}
use yosys_slang.Rtlil.{State, SigBit, s0, s1, same_state}
use yosys_slang.Variables.{Symbol}
use yosys_slang.Builder.Gates.{Cells}
use yosys_slang.Readmem.Defs.{
  str_to_state_vect, resize, address, data_word, digits, most_significant,
}
use yosys_slang.Readmem.Load.{
  Command, Loader, Outcome, next_word, next_line, failed, is_up, assign_words, flush_data,
  flush_rest, jump, load_address, load_word, is_at_end, load_token, strtol, contains_point,
  is_empty,
}

length-resize : (n : ℕ) (s : State) (l : List State) → length (resize n s l) ≡ n
unfolding resize
length-resize n s l = omega (
  arith,
  length-append (take n l) (replicate (n - length l) s),
  length-take n l,
  length-replicate (n - length l) s,
)

-- A word that is read is as wide as the memory.
length-str_to_state_vect :
    (states : List State) (str : List ℕ) (n : ℕ) (is_hex : Bool) (r : List State)
    → str_to_state_vect states str n is_hex ≡ some r
    → length r ≡ length states + n
unfolding str_to_state_vect
length-str_to_state_vect states str n is_hex r e =
    let (word, _, f) =
      >>=-some
        (data_word (if is_hex then 16 else 2) (if is_hex then 4 else 1) (reverse (digits str))) _ r
        e in
    let msb = most_significant word in
    let fill = if same_state msb s0 || same_state msb s1 then s0 else msb in
    ap length (sym (some_inj _ _ f))
    ∙ (omega (arith, length-append states (resize n fill word), length-resize n fill word))

-- As many whole words were read as there are addresses from the first one to the cursor.
unfoldable pub IsAligned : Command → Loader → Type 0
IsAligned c l =
    (n : ℕ) × (length l.read ≡ n * c.word_size)
    × (l.cursor ≡ address l.data_first_address (is_up c) n)

address_zero : (a : ℤ) (up : Bool) → a ≡ address a up 0
unfolding address
address_zero a true = grind int_laws
address_zero a false = grind int_laws

address_step : (a : ℤ) (up : Bool) (n : ℕ) → address (address a up n) up 1 ≡ address a up (suc n)
unfolding address
address_step a true n = grind int_laws
address_step a false n = grind int_laws

is_empty_lem : (l : List State) → is_empty l ≡ true → l ≡ []
is_empty_lem [] h = refl
is_empty_lem (x ∷ l) h = cc

module _ (is_inferred_memory : Symbol → Bool) (cells : Cells) (wire : Symbol → ℕ → SigBit)
    (c : Command) where
  -- What is known of the state that a token leads to.
  pub IsAfter : Outcome → Type 0
  IsAfter (next_word m) = IsAligned c m
  IsAfter (next_line m) =
      (n : ℕ) × (length m.read ≡ suc n * c.word_size)
      × (m.cursor ≡ address m.data_first_address (is_up c) n)
      × (is_at_end is_inferred_memory cells wire c m.cursor ≡ true)
  IsAfter (failed d m) = IsAligned c m

  flush_data_lem :
      (l m : Loader) → flush_data is_inferred_memory cells wire c l ≡ some m → m.read ≡ []
  unfolding flush_data
  flush_data_lem l m e =
      let (p, _, h) = >>=-some (assign_words is_inferred_memory cells wire c l) _ m e in
      ap (λ x. x.read) (sym (some_inj _ _ h))

  flush_rest_lem :
      (l m : Loader) → flush_rest is_inferred_memory cells wire c l ≡ some m → m.read ≡ []
  unfolding flush_rest
  flush_rest_lem l m e = elim (Bool-cases (is_empty l.read)) [
    | inl h ↦
        ap (λ x. x.read) (sym (some_inj _ _ (if_true (is_empty l.read) _ _ _ h e)))
        ∙ is_empty_lem l.read h
    | inr h ↦ flush_data_lem l m (if_false (is_empty l.read) _ _ _ h e)
  ]

  jump_lem :
      (a : ℤ) (l m : Loader)
      → IsAligned c l
      → jump is_inferred_memory cells wire c a l ≡ some m
      → IsAligned c m
  unfolding jump IsAligned
  jump_lem a l m (n, r, k) e = elim (Bool-cases (eqb_ℤ a l.cursor)) [
    | inl q ↦ subst (IsAligned c) (some_inj _ _ (elim_true (eqb_ℤ a l.cursor) _ _ _ q e)) (n, r, k)
    | inr q ↦
        let (x, ex, f) =
          >>=-some (flush_rest is_inferred_memory cells wire c l) _ m
            (elim_false (eqb_ℤ a l.cursor) _ _ _ q e) in
        subst (IsAligned c) (some_inj _ _ f) (
          0,
          ap length (flush_rest_lem l x ex) ∙ sym (zero-mul c.word_size),
          address_zero a (is_up c),
        )
  ]

  load_address_lem :
      (a : Option ℤ) (l : Loader) (o : Outcome)
      → IsAligned c l
      → load_address is_inferred_memory cells wire c a l ≡ some o
      → IsAfter o
  unfolding load_address IsAfter IsAligned
  load_address_lem none l o h e = subst IsAfter (some_inj _ _ e) h
  load_address_lem (some a) l o h e =
      elim (Bool-cases (contains_point c.start_addr c.finish_addr a)) [
        | inl q ↦
            let (m, em, f) =
              >>=-some (jump is_inferred_memory cells wire c a l) _ o
                (elim_true (contains_point c.start_addr c.finish_addr a) _ _ _ q e) in
            subst IsAfter (some_inj _ _ f) (jump_lem a l m h em)
        | inr q ↦
            subst IsAfter
              (some_inj _ _ (elim_false (contains_point c.start_addr c.finish_addr a) _ _ _ q e)) h
      ]

  load_word_lem :
      (read : List State) (l : Loader)
      → IsAligned c l
      → length read ≡ length l.read + c.word_size
      → IsAfter (load_word is_inferred_memory cells wire c (some read) l)
  unfolding load_word IsAfter IsAligned
  load_word_lem read l (n, r, k) e =
      elim (Bool-cases (is_at_end is_inferred_memory cells wire c l.cursor)) [
        | inl q ↦ rw (IsAfter, q) (n, omega (arith, suc-mul n c.word_size), k, q)
        | inr q ↦
            rw (IsAfter, q)
              (
                suc n,
                omega (arith, suc-mul n c.word_size),
                ap (λ x. address x (is_up c) 1) k ∙ address_step l.data_first_address (is_up c) n,
              )
      ]

  load_string_lem :
      (l : Loader) (token : List ℕ)
      → IsAligned c l
      → IsAfter (
          load_word is_inferred_memory cells wire c
            (str_to_state_vect l.read token c.word_size c.is_hex)
            l)
  unfolding load_word IsAfter
  load_string_lem l token h =
      elim (Option-cases (str_to_state_vect l.read token c.word_size c.is_hex)) [
        | inl e ↦ rw e h
        | inr (r, e) ↦
            rw e
              (load_word_lem r l h (length-str_to_state_vect l.read token c.word_size c.is_hex r e))
      ]

  -- The words that were read but not flushed have the addresses from that of the first one up to the
  -- cursor. Then this is so behind a token, an address or a word, after which the line goes on, and where the
  -- load fails; and where the line is left, the cursor is at the end of the addresses and is the address of the
  -- last of the words.
  pub load_token-IsAfter :
      (token : List ℕ) (l : Loader) (o : Outcome)
      → IsAligned c l
      → load_token is_inferred_memory cells wire c token l ≡ some o
      → IsAfter o
  unfolding load_token
  load_token-IsAfter [] l o h e = subst IsAfter (some_inj _ _ e) (load_string_lem l [] h)
  load_token-IsAfter (t ∷ token) l o h e = elim (Bool-cases (t == 64)) [
    | inl q ↦ load_address_lem (strtol token) l o h (elim_true (t == 64) _ _ _ q e)
    | inr q ↦
        subst IsAfter (some_inj _ _ (elim_false (t == 64) _ _ _ q e))
          (load_string_lem l (t ∷ token) h)
  ]
