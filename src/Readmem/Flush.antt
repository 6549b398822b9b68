-- ===== src/Readmem/Flush.antt =====
-- src/slang_frontend.cc, handle_readmem: where the words that were read go, and in which order.
use yosys_slang.Base.{
  ℕ, zero, suc, ◌+◌, ◌*◌, ◌-◌, ◌/◌, ◌%◌, ◌^◌, ◌<◌, ◌≤◌, ◌≡◌, refl, sym, ap, ◌∙◌, arith, Bool, true,
  false, some, List, [], ◌∷◌, ◌++◌, length, take, drop, length-take, length-drop, length-append,
  dec_lt, Bool-cases, inl, inr,
}
use native.Mathlib.Nat.{suc-mul, zero-mul, mod-eq_of_lt, mul-mod_left, mul-div_left}
use yosys_slang.Base.Int.{ℤ, pos, int_laws}
use yosys_slang.Rtlil.{State, cut}
use yosys_slang.Addressing.{Range}
use yosys_slang.Builder.MemoryInit.{reverse_words, reverse_data}
use yosys_slang.Readmem.Defs.{element, address, to_uint32, needs_reversal, flush_words}

take_left : (a b : List State) (n : ℕ) → length a ≡ n → take n (a ++ b) ≡ a
take_left [] b zero h = refl
take_left [] b (suc n) h = absurd (omega arith)
take_left (x ∷ a) b zero h = absurd (omega arith)
take_left (x ∷ a) b (suc n) h = ap (◌∷◌ x) (take_left a b n (omega arith))

drop_left : (a b : List State) (n i : ℕ) → length a ≡ n → drop (n + i) (a ++ b) ≡ drop i b
drop_left [] b zero i h = ap (λ k. drop k b) {y = i} (omega arith)
drop_left [] b (suc n) i h = absurd (omega arith)
drop_left (x ∷ a) b zero i h = absurd (omega arith)
drop_left (x ∷ a) b (suc n) i h =
    ap (λ k. drop k (x ∷ (a ++ b))) {y = suc (n + i)} (omega arith)
    ∙ drop_left a b n i (omega arith)

length-cut : (l : List State) (o n : ℕ) → o + n ≤ length l → length (cut l o n) ≡ n
length-cut l o n h = omega (arith, length-take n (drop o l), length-drop o l)

cut_first : (a b : List State) (o n : ℕ) → o ≡ 0 → length a ≡ n → cut (a ++ b) o n ≡ a
cut_first a b o n e h = ap (λ k. take n (drop k (a ++ b))) e ∙ take_left a b n h

cut_rest :
    (a b : List State) (o n m i : ℕ) → o ≡ n + i → length a ≡ n → cut (a ++ b) o m ≡ cut b i m
cut_rest a b o n m i e h = ap (λ k. take m (drop k (a ++ b))) e ∙ ap (take m) (drop_left a b n i h)

length-reverse_words :
    (width n : ℕ) (orig : List State)
    → n * width ≤ length orig
    → length (reverse_words width n orig) ≡ n * width
unfolding reverse_words
length-reverse_words width zero orig h = omega arith
length-reverse_words width (suc n) orig h =
    let e = suc-mul n width in
    let r = length-reverse_words width n orig (omega arith) in
    omega (
      arith,
      length-append (cut orig (n * width) width) (reverse_words width n orig),
      length-cut orig (n * width) width (omega arith),
    )

-- Word `k` of the reversed words is the one that is as far from the end.
reverse_words_lem :
    (width n k : ℕ) (orig : List State)
    → suc n * width ≤ length orig
    → k ≤ n
    → cut (reverse_words width (suc n) orig) ((n - k) * width) width ≡ cut orig (k * width) width
unfolding reverse_words
reverse_words_lem width zero k orig h p =
    cut_first (cut orig (0 * width) width) [] ((0 - k) * width) width
      (ap (λ x. x * width) {x = 0 - k} {y = 0} (omega arith) ∙ zero-mul width)
      (length-cut orig (0 * width) width
        (rw (zero-mul width) (omega (arith, suc-mul 0 width, zero-mul width))))
    ∙ ap (λ o. cut orig (o * width) width) {x = 0} {y = k} (omega arith)
reverse_words_lem width (suc m) k orig h p = elim (dec_lt k (suc m)) [
  | no q ↦
      let e = suc-mul (suc m) width in
      cut_first (cut orig (suc m * width) width) (reverse_words width (suc m) orig)
        ((suc m - k) * width) width
        (ap (λ x. x * width) {x = suc m - k} {y = 0} (omega arith) ∙ zero-mul width)
        (length-cut orig (suc m * width) width (omega arith))
      ∙ ap (λ o. cut orig (o * width) width) {x = suc m} {y = k} (omega arith)
  | yes q ↦
      let e = suc-mul (suc m) width in
      let f = suc-mul (m - k) width in
      cut_rest (cut orig (suc m * width) width) (reverse_words width (suc m) orig)
        ((suc m - k) * width) width width ((m - k) * width)
        (ap (λ x. x * width) {x = suc m - k} {y = suc (m - k)} (omega arith) ∙ (omega arith))
        (length-cut orig (suc m * width) width (omega arith))
      ∙ reverse_words_lem width m k orig (omega arith) (omega arith)
]

position_forward :
    (range : Range) (up : Bool) (first : ℤ) (k a i : ℕ)
    → needs_reversal range up ≡ false
    → element range first ≡ pos a
    → element range (address first up k) ≡ pos i
    → i ≡ a + k
unfolding needs_reversal element address
position_forward range true first k a i h ea ei = grind int_laws
position_forward range false first k a i h ea ei = grind int_laws

position_backward :
    (range : Range) (up : Bool) (first : ℤ) (k a i : ℕ)
    → needs_reversal range up ≡ true
    → element range first ≡ pos a
    → element range (address first up k) ≡ pos i
    → i + k ≡ a
unfolding needs_reversal element address
position_backward range true first k a i h ea ei = grind int_laws
position_backward range false first k a i h ea ei = grind int_laws

uint32_small : (z : ℤ) (n : ℕ) → z ≡ pos n → n < 2 ^ 32 → to_uint32 z ≡ n
unfolding to_uint32
uint32_small z n e h = ap to_uint32 e ∙ mod-eq_of_lt h

-- The words that were read, from the first address on, go to their elements.
abbrev pub IsPlaced : Range → Bool → ℕ → ℤ → ℕ → List State → ℕ → List State → Type 0
IsPlaced range up word_size first n read base value =
    (k i : ℕ)
    → k ≤ n
    → element range (address first up k) ≡ pos i
    → (base ≤ i)
      × (cut value ((i - base) * word_size) word_size ≡ cut read (k * word_size) word_size)

whole_words :
    (w n : ℕ) (read : List State)
    → length read ≡ suc n * suc w
    → (length read % suc w ≡ 0) × (length read / suc w ≡ suc n)
whole_words w n read h = (
  ap (λ l. l % suc w) h ∙ mul-mod_left (suc n) (suc w),
  ap (λ l. l / suc w) h ∙ mul-div_left (suc n) (omega arith),
)

forward :
    (range : Range) (up : Bool) (w n a : ℕ) (first : ℤ) (read : List State)
    → needs_reversal range up ≡ false
    → length read ≡ suc n * suc w
    → element range first ≡ pos a
    → a < 2 ^ 32
    → (flush_words range up (suc w) first read ≡ some (a, read))
      × IsPlaced range up (suc w) first n read a read
unfolding flush_words
forward range up w n a first read r h ea la =
    let (m, d) = whole_words w n read h in
    (
      rw (r, m) (ap (λ x. some (x, read)) (uint32_small (element range first) a ea la)),
      λ k i p ei.
          let e = position_forward range up first k a i r ea ei in
          (omega arith, ap (λ x. cut read (x * suc w) (suc w)) {x = i - a} {y = k} (omega arith)),
    )

backward :
    (range : Range) (up : Bool) (w n a b : ℕ) (first : ℤ) (read : List State)
    → needs_reversal range up ≡ true
    → length read ≡ suc n * suc w
    → element range first ≡ pos a
    → element range (address first up n) ≡ pos b
    → b < 2 ^ 32
    → (flush_words range up (suc w) first read ≡ some (b, reverse_words (suc w) (suc n) read))
      × IsPlaced range up (suc w) first n read b (reverse_words (suc w) (suc n) read)
unfolding flush_words reverse_data
backward range up w n a b first read r h ea eb lb =
    let (m, d) = whole_words w n read h in
    let last = position_backward range up first n a b r ea eb in
    (
      rw (r, m, d)
          (ap (λ x. some (x, reverse_words (suc w) (suc n) read))
            (uint32_small (element range (address first up (suc n - 1))) b
              (ap (λ x. element range (address first up x)) {x = suc n - 1} {y = n} (omega arith)
                ∙ eb)
              lb)),
      λ k i p ei.
          let e = position_backward range up first k a i r ea ei in
          (
            omega arith,
            ap (λ x. cut (reverse_words (suc w) (suc n) read) (x * suc w) (suc w)) {x = i - b}
                  {y = n - k} (omega arith)
                ∙ reverse_words_lem (suc w) n k read (omega arith) p,
          ),
    )

-- Some words of the target's width were read, at addresses from the first one up- or downwards, and the
-- first and the last of the addresses have elements, below 2 ^ 32, in the target. Then the flush gives as many
-- bits as were read, to be put at a first element, so that each word gets to the element that has its address,
-- whichever way the target's range and the addresses run.
pub flush_words_lem :
    (range : Range) (up : Bool) (w n a b : ℕ) (first : ℤ) (read : List State)
    → length read ≡ suc n * suc w
    → element range first ≡ pos a
    → element range (address first up n) ≡ pos b
    → a < 2 ^ 32
    → b < 2 ^ 32
    → (base : ℕ) × (value : List State) × (flush_words range up (suc w) first read
        ≡ some (base, value))
      × (length value ≡ length read)
      × IsPlaced range up (suc w) first n read base value
flush_words_lem range up w n a b first read h ea eb la lb =
    elim (Bool-cases (needs_reversal range up)) [
      | inl r ↦
          let (e, p) = backward range up w n a b first read r h ea eb lb in
          (
            b,
            reverse_words (suc w) (suc n) read,
            e,
            length-reverse_words (suc w) (suc n) read (omega arith) ∙ sym h,
            p,
          )
      | inr r ↦ let (e, p) = forward range up w n a first read r h ea la in (a, read, e, refl, p)
    ]
