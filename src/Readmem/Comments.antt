-- ===== src/Readmem/Comments.antt =====
-- src/slang_frontend.cc, handle_readmem: what is left of a line with a comment.
use yosys_slang.Base.{
  ℕ, suc, ◌+◌, ◌≡◌, refl, sym, ap, ◌∙◌, arith, Bool, true, false, ◌||◌, ◌&&◌, List, [], ◌∷◌, ◌++◌,
  if◌then◌else◌, length, replicate, append_assoc, ◌==◌,
}
use yosys_slang.Readmem.Defs.{is_pair, comment_step, remove_comments}

-- The text has the two characters next to each other.
unfoldable pub has_pair : ℕ → ℕ → List ℕ → Bool
unfolding is_pair
has_pair a b [] = false
has_pair a b (c ∷ l) = is_pair a b c l || has_pair a b l

abbrev pub push : ℕ → List ℕ × Bool → List ℕ × Bool
push c r = (c ∷ r.0, r.1)

-- What is left of a text, behind others.
abbrev pub behind : List ℕ → List ℕ × Bool → List ℕ × Bool
behind l r = (l ++ r.0, r.1)

or_false : (b c : Bool) → (b || c) ≡ false → (b ≡ false) × (c ≡ false)
or_false b c h = ground arith

and_false : (b : Bool) → (b && false) ≡ false
and_false true = refl
and_false false = refl

not_pair :
    (a b c x : ℕ) (l r : List ℕ)
    → (x == b) ≡ false
    → is_pair a b c l ≡ false
    → is_pair a b c (l ++ (x ∷ r)) ≡ false
unfolding is_pair
not_pair a b c x [] r e h = ap (λ z. (c == a) && z) e ∙ and_false (c == a)
not_pair a b c x (d ∷ l) r e h = h

is_pair-space : (l : List ℕ) → is_pair 47 42 32 l ≡ false
unfolding is_pair
is_pair-space [] = refl
is_pair-space (d ∷ l) = refl

inside_step :
    (c : ℕ) (l : List ℕ)
    → is_pair 42 47 c l ≡ false
    → remove_comments true false (c ∷ l) ≡ push 32 (remove_comments true false l)
unfolding remove_comments comment_step
inside_step c l h =
    ap
      (λ b.
        let step : ℕ × Bool × Bool = if b then (32, false, true) else (32, true, false) in
        push step.0 (remove_comments step.1 step.2 l))
      h

outside_step :
    (c : ℕ) (l : List ℕ)
    → is_pair 47 42 c l ≡ false
    → remove_comments false false (c ∷ l) ≡ push c (remove_comments false false l)
unfolding remove_comments comment_step
outside_step c l h =
    ap
      (λ b.
        let step : ℕ × Bool × Bool = if b then (32, true, false) else (c, false, false) in
        push step.0 (remove_comments step.1 step.2 l))
      h

overwritten_step :
    (c : ℕ) (l : List ℕ)
    → remove_comments false true (c ∷ l) ≡ push 32 (remove_comments false false l)
unfolding remove_comments
overwritten_step c l = outside_step 32 l (is_pair-space l)

open_end :
    (post : List ℕ)
    → remove_comments true false (42 ∷ 47 ∷ post) ≡ push 32 (remove_comments false true (47 ∷ post))
unfolding remove_comments comment_step is_pair
open_end post = refl

-- What is a comment's is replaced by spaces.
inside :
    (body post : List ℕ)
    → has_pair 42 47 body ≡ false
    → remove_comments true false (body ++ (42 ∷ 47 ∷ post))
      ≡ behind (replicate (suc (suc (length body))) 32) (remove_comments false false post)
unfolding has_pair
inside [] post h = open_end post ∙ ap (push 32) (overwritten_step 47 post)
inside (c ∷ body) post h =
    let (now, later) = or_false (is_pair 42 47 c body) (has_pair 42 47 body) h in
    inside_step c (body ++ (42 ∷ 47 ∷ post)) (not_pair 42 47 c 42 body (47 ∷ post) refl now)
    ∙ ap (push 32) (inside body post later)

-- Text before a comment is left as it is.
before :
    (pre rest : List ℕ)
    → has_pair 47 42 pre ≡ false
    → remove_comments false false (pre ++ (47 ∷ rest))
      ≡ behind pre (remove_comments false false (47 ∷ rest))
unfolding has_pair
before [] rest h = refl
before (c ∷ pre) rest h =
    let (now, later) = or_false (is_pair 47 42 c pre) (has_pair 47 42 pre) h in
    outside_step c (pre ++ (47 ∷ rest)) (not_pair 47 42 c 47 pre rest refl now)
    ∙ ap (push c) (before pre rest later)

open_comment :
    (w post : List ℕ)
    → is_pair 47 42 47 (w ++ (42 ∷ [])) ≡ true
    → remove_comments false false (47 ∷ (w ++ (42 ∷ 47 ∷ post)))
      ≡ push 32 (remove_comments true false (w ++ (42 ∷ 47 ∷ post)))
unfolding remove_comments comment_step is_pair
open_comment [] post h = refl
open_comment (c ∷ w) post h =
    ap
      (λ b.
        let step : ℕ × Bool × Bool = if b then (32, true, false) else (47, false, false) in
        push step.0 (remove_comments step.1 step.2 ((c ∷ w) ++ (42 ∷ 47 ∷ post))))
      h

-- A line is given whose first `/` with a `*` behind it stands before `w`, and the first `*` with a `/` behind it,
-- from `w` on, stands behind `w`. Then what is before the
-- `/` stays, all from it to the second `/` becomes as many spaces, and what follows is treated like a line of
-- its own. With an empty `w`, the three characters `/`, `*` and `/` are a comment.
pub remove_comments_lem :
    (pre w post : List ℕ)
    → has_pair 47 42 pre ≡ false
    → is_pair 47 42 47 (w ++ (42 ∷ [])) ≡ true
    → has_pair 42 47 w ≡ false
    → remove_comments false false (pre ++ (47 ∷ (w ++ (42 ∷ 47 ∷ post))))
      ≡ behind (pre ++ replicate (length w + 3) 32) (remove_comments false false post)
remove_comments_lem pre w post h o k =
    before pre (w ++ (42 ∷ 47 ∷ post)) h
    ∙ ap (behind pre) (open_comment w post o ∙ ap (push 32) (inside w post k))
    ∙ ap (λ l. (l, (remove_comments false false post).1))
        (sym (
            append_assoc pre (replicate (suc (suc (suc (length w)))) 32)
              (remove_comments false false post).0)
          ∙ ap (λ n. (pre ++ replicate n 32) ++ (remove_comments false false post).0)
              {x = suc (suc (suc (length w)))} (omega arith))
