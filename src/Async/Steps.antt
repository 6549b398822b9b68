-- ===== src/Async/Steps.antt =====
-- src/async_pattern.cc, `interpret_async_pattern`: the blocks and the leading statements that are taken
-- off the body.
use yosys_slang.Base.{
  ℕ, ◌≡◌, inl, inr, refl, sym, ap, ◌∙◌, Bool, true, Option, none, List, [], ◌∷◌, ◌++◌, append_assoc,
  append-nil, Bool-cases,
}
use yosys_slang.Async.Defs.{
  Statement, Statements, block, list, expression_statement, variable_declaration, conditional,
  if_without_else, other_statement, no_statement, add_statement, is_prologue, peel, peel_list,
}

mutual
  -- The statements that a statement runs one after the other, without blocks and lists.
  pub steps : Statement → List Statement
  steps (block sequential sym body) = steps body
  steps (list l) = list_steps l
  steps s = s ∷ []

  pub list_steps : Statements → List Statement
  list_steps no_statement = []
  list_steps (add_statement s l) = steps s ++ list_steps l

steps-prologue : (s : Statement) → is_prologue s ≡ true → steps s ≡ s ∷ []
unfolding steps
steps-prologue (expression_statement n) e = refl
steps-prologue (variable_declaration n) e = refl
steps-prologue (block k sym body) e = cc
steps-prologue (list l) e = cc
steps-prologue (conditional p c t f) e = cc
steps-prologue (if_without_else p c t) e = cc
steps-prologue (other_statement n) e = cc

mutual
  unfolding steps peel

  peel-steps :
      (many : Bool) (name : Option ℕ) (prologue : List Statement) (s : Statement)
      → let p = peel many name prologue s in p.prologue ++ steps p.stmt ≡ prologue ++ steps s
  peel-steps many none prologue (block true name body) = peel-steps many name prologue body
  peel-steps true name prologue (list l) = peel_list-steps name prologue l [] l refl
  peel-steps many name prologue s = refl

  peel_list-steps :
      (name : Option ℕ) (prologue : List Statement) (whole : Statements) (pending : List Statement)
      (l : Statements)
      → list_steps whole ≡ pending ++ list_steps l
      → let p = peel_list name prologue (list whole) pending l in
        p.prologue ++ steps p.stmt ≡ prologue ++ list_steps whole
  peel_list-steps name prologue whole pending no_statement e = refl
  peel_list-steps name prologue whole pending (add_statement s no_statement) e =
      elim (Bool-cases (is_prologue s)) [
        | inl f ↦ rw f refl
        | inr f ↦ rw f (
            peel-steps true name (prologue ++ pending) s
            ∙ append_assoc prologue pending (steps s)
            ∙ ap (◌++◌ prologue) (ap (◌++◌ pending) (sym (append-nil (steps s))) ∙ sym e))
      ]
  peel_list-steps name prologue whole pending (add_statement s (add_statement t l)) e =
      elim (Bool-cases (is_prologue s)) [
        | inl f ↦ rw f (
            peel_list-steps name prologue whole (pending ++ (s ∷ [])) (add_statement t l) (
              e
              ∙ ap (λ k. pending ++ (k ++ list_steps (add_statement t l))) (steps-prologue s f)
              ∙ sym (append_assoc pending (s ∷ []) (list_steps (add_statement t l)))))
        | inr f ↦ rw f refl
      ]

-- Taking blocks and leading statements off a body neither drops nor reorders a statement: the prologue
-- and what is left run the steps of the body.
pub peel_lem :
    (many : Bool) (body : Statement)
    → let p = peel many none [] body in p.prologue ++ steps p.stmt ≡ steps body
peel_lem many body = peel-steps many none [] body
