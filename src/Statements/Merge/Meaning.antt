-- ===== src/Statements/Merge/Meaning.antt =====
-- src/statements.h, SwitchHelper::finish: what the variables stand for once a switch is left.
use yosys_slang.Base.{
  ℕ, ◌<◌, ◌≤◌, ◌≡◌, ◌≢◌, Option-cases, refl, sym, ap, subst, ◌∙◌, true, false, none, some, List, [],
  ◌∷◌, ◌++◌, append_assoc, append-nil, arith, Bool-cases, inl, inr, some_inj, >>=-some, All,
  get_elem?,
}
use yosys_slang.Rtlil.{SigBit, SigSpec, wire_bit, same_sigbit, same_sigbit_iff}
use yosys_slang.Cases.{SigSig}
use yosys_slang.Variables.{
  static, local, escape_flag, dummy, invalid, Symbol, Variable, VariableBit, VariableBits,
  chunk_spans, unpack,
}
use yosys_slang.Variables.Chunks.{chunk_spans_lem}
use yosys_slang.Variables.Sorting.{contains}
use yosys_slang.State.{wire_of, Map, VariableState, lookup, values_at, evaluate_chunk_bit}
use yosys_slang.Procedural.{has_variable}
use yosys_slang.Statements.Merge.Defs.{
  Merge, Merged, Updates, all_branch_actions, updated_anybranch, eos_variables, branch_actions,
  merge_chunks, finish_values,
}
use yosys_slang.Statements.Merge.Nets.{
  Pairs, zip, flat, drives, last_source, Settles, Settles-drives, Settles-last_source,
  Settles_behind,
}
use yosys_slang.Statements.Merge.Steps.{Steps, merge_chunks-Steps}
use yosys_slang.Statements.Merge.Wires.{
  true_not_false, Steps-own, Steps-covered, Steps-values, lookup-evaluate, same_lookup,
}
use yosys_slang.Statements.Merge.Actions.{
  updated_bit, values_at-lookup, IsUpdate, branch_actions_lem, all_branch_actions-branch,
}

flat-append : (a b : List SigSig) → flat (a ++ b) ≡ flat a ++ flat b
unfolding flat
flat-append [] b = refl
flat-append ((l, r) ∷ a) b =
    ap (◌++◌ (zip l r)) (flat-append a b) ∙ sym (append_assoc (zip l r) (flat a) (flat b))

-- A bit that actions drive is the net of one of the bits that they update.
module _ (eos : List Variable) (k : List VariableBit) where
  -- A bit that actions drive is the net of one of the bits that they update.
  drives-IsUpdate :
      (n vb : Map) (l : Pairs) (w : SigBit)
      → All (IsUpdate eos k n vb) l
      → drives l w ≡ true
      → (b : VariableBit) × (contains b k ≡ true)
        × (has_variable b.variable eos ≡ false)
        × (lookup b n ≡ some w)
  unfolding drives
  drives-IsUpdate n vb [] w a h = cc
  drives-IsUpdate n vb ((u, d) ∷ l) w a h = elim (Bool-cases (same_sigbit u w)) [
    | inl e ↦ let ((b, c, o, p, q), _) = a in (b, c, o, p ∙ ap some ((same_sigbit_iff u w).0 e))
    | inr e ↦ drives-IsUpdate n vb l w a.1 (ground arith)
  ]

  -- Actions of which each gives a net its owner's value give a net, whose only owner is `b`, that of `b`.
  one_source :
      (n vb : Map) (l : Pairs) (w : SigBit) (b : VariableBit) (z : SigBit)
      → All (IsUpdate eos k n vb) l
      → ((d : VariableBit) → lookup d n ≡ some w → d ≡ b)
      → lookup b vb ≡ some z
      → All (λ p. p.0 ≡ w → p.1 ≡ z) l
  one_source n vb [] w b z a o e = tt
  one_source n vb ((u, x) ∷ l) w b z a o e =
      let ((d, _, _, p, q), r) = a in
      (
        λ h. some_inj x z (sym q ∙ ap (λ k. lookup k vb) (o d (p ∙ ap some h)) ∙ e),
        one_source n vb l w b z r o e,
      )

evaluate-none :
    (wire : Symbol → ℕ → SigBit) (n : VariableState) (v : Variable) (o : ℕ) (w : SigBit)
    → lookup (record { variable = v; offset = o }) n.visible_assignments ≡ none
    → evaluate_chunk_bit wire n (record { variable = v; offset = o }) ≡ some w
    → (i : Symbol) × (wire i o ≡ w)
unfolding evaluate_chunk_bit wire_of
evaluate-none wire n (static i) o w h e = (i, ground arith)
evaluate-none wire n (local i d) o w h e = ground arith
evaluate-none wire n (escape_flag i) o w h e = ground arith
evaluate-none wire n (dummy i) o w h e = ground arith
evaluate-none wire n invalid o w h e = ground arith

-- The bit that a net with a new wire belongs to is the one that evaluates to it.
evaluate_new :
    (wire : Symbol → ℕ → SigBit) (n : VariableState) (next : ℕ) (b : VariableBit) (k j : ℕ)
    → ((i : Symbol) (o k j : ℕ) → wire i o ≡ wire_bit k j → k < next)
    → evaluate_chunk_bit wire n b ≡ some (wire_bit k j)
    → next ≤ k
    → lookup b n.visible_assignments ≡ some (wire_bit k j)
evaluate_new wire n next b k j h e o = elim (Option-cases (lookup b n.visible_assignments)) [
  | inr (v, p) ↦ p ∙ sym (lookup-evaluate wire n b v p) ∙ e
  | inl p ↦
      let (i, q) = evaluate-none wire n b.variable b.offset (wire_bit k j) p e in
      absurd (omega (arith, h i b.offset k j q))
]

nothing_driven : (w : SigBit) → drives (flat []) w ≢ true
unfolding drives flat
nothing_driven w h = cc

abbrev start : VariableState → ℕ → Merge
start s next = record { vstate = s; next_wire = next; defaults = [] }

finish_parts :
    (wire : Symbol → ℕ → SigBit) (rank : Symbol → ℕ) (s : VariableState) (next : ℕ)
    (l : List Updates) (r : Merged)
    → finish_values wire rank s next l ≡ some r
    → (merge_chunks wire
          (eos_variables rank s l)
          (chunk_spans (updated_anybranch rank l))
          (start s next)
        ≡ some r.result)
      × (all_branch_actions (eos_variables rank s l) r.result.vstate.visible_assignments l
          ≡ some r.branches)
unfolding finish_values
finish_parts wire rank s next l r e =
    let (m, p, q) =
      >>=-some
        (merge_chunks wire (eos_variables rank s l) (chunk_spans (updated_anybranch rank l))
          (start s next))
        _ r e in
    let (b, p', q') =
      >>=-some (all_branch_actions (eos_variables rank s l) m.vstate.visible_assignments l) _ r q in
    subst
      (λ r.
        (merge_chunks wire (eos_variables rank s l) (chunk_spans (updated_anybranch rank l))
            (start s next)
          ≡ some r.result)
        × (all_branch_actions (eos_variables rank s l) r.result.vstate.visible_assignments l
            ≡ some r.branches))
      (some_inj (record { result = m; branches = b }) r q') (p, p')

module _ {V : Type 0} (val : SigBit → V) (wire : Symbol → ℕ → SigBit) (rank : Symbol → ℕ)
    (s : VariableState) (next : ℕ) (l : List Updates) (r : Merged)
    (fresh : (b : VariableBit) (k j : ℕ)
      → lookup b s.visible_assignments ≡ some (wire_bit k j)
      → k < next)
    (used : (i : Symbol) (o k j : ℕ) → wire i o ≡ wire_bit k j → k < next)
    (done : finish_values wire rank s next l ≡ some r) where
  steps :
      Steps wire
        (eos_variables rank s l)
        (chunk_spans (updated_anybranch rank l))
        (start s next)
        r.result
  steps =
      merge_chunks-Steps wire _ _ (start s next) r.result (finish_parts wire rank s next l r done).0

  -- With the actions of a branch behind the defaults, or none, a bit's net has the value it had before unless the actions drive it.
  undriven_value :
      (rule : List SigSig)
      → ((w : SigBit)
          → drives (flat rule) w ≡ true
          → (b : VariableBit) × (lookup b r.result.vstate.visible_assignments ≡ some w))
      → ((w d : SigBit) → last_source (flat (r.result.defaults ++ rule)) w ≡ some d → val w ≡ val d)
      → (b : VariableBit) (y : SigBit) → evaluate_chunk_bit wire s b ≡ some y
      → (x : SigBit) × (evaluate_chunk_bit wire r.result.vstate b ≡ some x)
        × (drives (flat rule) x ≡ false → val x ≡ val y)
  undriven_value rule o q b y e =
      let (rest, d, _, g) =
        Steps-values wire (eos_variables rank s l) val _ (start s next) r.result steps fresh in
      let p = Settles-last_source val _ q in
      g (flat rule) o
        (subst (Settles val) (flat-append r.result.defaults rule ∙ ap (λ k. flat k ++ flat rule) d)
          p)
        b y e

  -- Once a switch is left, where no branch is taken and nets have the values of the last assignments to them, each variable bit has the value it had before the switch.
  pub finish_values-default :
      ((w d : SigBit) → last_source (flat r.result.defaults) w ≡ some d → val w ≡ val d)
      → (b : VariableBit) (y : SigBit) → evaluate_chunk_bit wire s b ≡ some y
      → (x : SigBit) × (evaluate_chunk_bit wire r.result.vstate b ≡ some x) × (val x ≡ val y)
  unfolding drives flat
  finish_values-default q b y e =
      let (x, h, g) =
        undriven_value [] (λ w h. absurd (nothing_driven w h))
          (λ w d p.
            q w d (ap (λ k. last_source (flat k) w) (sym (append-nil r.result.defaults)) ∙ p))
          b y e in
      (x, h, g refl)

  -- Once a switch is left, with nets that have the values of the last assignments to them among the defaults
  -- and the actions of the branch that is taken, each bit of a variable in scope has the value that it had
  -- at the end of that branch. The branch's updates are as `restore` gives them: they have the values at
  -- its end, and other bits are as before. No wire in use has a number that a placeholder gets.
  pub finish_values_lem :
      (i : ℕ) (target : VariableBits) (source : SigSpec) (acts : List SigSig) (t : VariableState)
      → get_elem? l i ≡ some (target, source)
      → get_elem? r.branches i ≡ some acts
      → values_at t.visible_assignments (unpack target) ≡ some source
      → ((b : VariableBit)
          → contains b (unpack target) ≡ false
          → lookup b t.visible_assignments ≡ lookup b s.visible_assignments)
      → ((w d : SigBit) → last_source (flat (r.result.defaults ++ acts)) w ≡ some d → val w ≡ val d)
      → (b : VariableBit) (y : SigBit) → has_variable b.variable (eos_variables rank s l) ≡ false
      → evaluate_chunk_bit wire t b ≡ some y
      → (x : SigBit) × (evaluate_chunk_bit wire r.result.vstate b ≡ some x) × (val x ≡ val y)
  finish_values_lem i target source acts t e h v u q b y live ey =
      let eos = eos_variables rank s l in
      let va = r.result.vstate.visible_assignments in
      let (_, done_branches) = finish_parts wire rank s next l r done in
      let z : branch_actions eos va source 0 (chunk_spans target) ≡ some acts =
        all_branch_actions-branch eos va l r.branches i target source acts done_branches e h in
      let (o, d) =
        branch_actions_lem eos (unpack target) va t.visible_assignments source 0
          (chunk_spans target) acts (λ b h. sym (ap (contains b) (chunk_spans_lem target).0) ∙ h) z
          (ap (values_at t.visible_assignments) (chunk_spans_lem target).0 ∙ v) in
      let own : (w : SigBit)
          → drives (flat acts) w ≡ true
          → (b : VariableBit) × (lookup b va ≡ some w) =
        λ w h.
          (let (b, _, _, f) =
              drives-IsUpdate eos (unpack target) va t.visible_assignments (flat acts) w o h in
            (b, f)) in
      elim (Bool-cases (contains b (unpack target))) [
        | inl c ↦
            let (k, j, n, f) =
              Steps-covered wire eos _ (start s next) r.result steps b
                (updated_bit rank l i target source b e c) live in
            let x : SigBit = wire_bit k j in
            let (zy, ez) = values_at-lookup t.visible_assignments (unpack target) source b v c in
            let ty : zy ≡ y = some_inj zy y (sym (lookup-evaluate wire t b zy ez) ∙ ey) in
            let p = Settles_behind val (flat r.result.defaults) (flat acts) (
              subst (Settles val) (flat-append r.result.defaults acts)
                (Settles-last_source val _ q)) in
            (
              x,
              lookup-evaluate wire r.result.vstate b x f,
              Settles-drives val (flat acts) x zy p
                    (d b x (ap (contains b) (chunk_spans_lem target).0 ∙ c) live f)
                    (one_source eos (unpack target) va t.visible_assignments (flat acts) x b zy o
                      (λ a g.
                        sym
                          (Steps-own wire eos _ (start s next) r.result steps fresh b a k j n f g))
                      ez)
                  ∙ ap val ty,
            )
        | inr c ↦
            let (x, f, g) =
              undriven_value acts own q b y (same_lookup wire t s b (sym (u b c)) ∙ ey) in
            (
              x,
              f,
              g (elim (Bool-cases (drives (flat acts) x)) [
                | inr h ↦ h
                | inl h ↦
                    let (a, ca, la, fa) =
                      drives-IsUpdate eos (unpack target) va t.visible_assignments (flat acts) x o
                        h in
                    let (k, j, n, fw) =
                      Steps-covered wire eos _ (start s next) r.result steps a
                        (updated_bit rank l i target source a e ca) la in
                    let xw : x ≡ wire_bit k j = some_inj x _ (sym fa ∙ fw) in
                    let fb = evaluate_new wire r.result.vstate next b k j used (f ∙ ap some xw) n in
                    let ab : a ≡ b =
                      Steps-own wire eos _ (start s next) r.result steps fresh a b k j n fw fb in
                    absurd (true_not_false _ (sym ca ∙ ap (λ u. contains u (unpack target)) ab) c)
              ]),
            )
      ]
