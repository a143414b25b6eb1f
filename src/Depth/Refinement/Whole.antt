-- ===== src/Depth/Refinement/Whole.antt =====
-- A whole level, by recursion on its selections; the fragments that it spreads have lower rank.
use django_graphex.Common.{
  ℕ, zero, suc, ◌+◌, ◌<◌, ◌≤◌, ◌≡◌, refl, ◌∙◌, String, true, false, Option, none, some, List, ◌∷◌,
  contains, arith, inl, inr, ◌==◌,
}
use django_graphex.Graphql.Ast.{
  Selection, leaf, field, inline, spread, Selections, nil, cons, Fragment, NamedType, Runtime,
  type_or, Directive,
}
use django_graphex.Cost.Analyzer.{Names, inline_type}
use django_graphex.Graphql.Ranked.{SpreadsBelow, SpreadBelow, Ranked}
use django_graphex.Machine.{Leads-refl}
use django_graphex.Cost.Refinement.Assumptions.{
  Known, OpenFrom, OpenFrom-le, Known-type_or, Known-inline_type, contains-OpenFrom, discard-cons,
  TypeMap,
}
use django_graphex.Cost.Refinement.Levels.Steps.{selections_steps, selection_steps}
use django_graphex.Depth.Limits.{Constraint, type_max_depth, child_constraints}
use django_graphex.Depth.Walker.{SpreadKey, Frame, step}
use django_graphex.Depth.Reference.{Spreads, violation_in, violations}
use django_graphex.Depth.Budget.Fits.{below_field}
use django_graphex.Depth.Budget.Agree.{Left, Left-child}
use django_graphex.Depth.Refinement.Outcome.{
  IsProven, IsProven-cons, spread_key, level, state, Outcome, Outcome-jump, Outcome-done,
  Outcome-trans, Outcome-level,
}
use django_graphex.Depth.Refinement.Selection.{
  before, after, step-leaf, step-field, step-inline, step-spread, step-close,
}

==_self : (n : ℕ) → (n == n) ≡ true
==_self n = ground arith

module _ (rt : Runtime) (names : Names) (types : TypeMap rt names.schema) (f : Spreads)
    (solves : (name : String) (frag : Fragment) (t : NamedType) (cs : List Constraint) (depth : ℕ)
      → names.get_fragment name ≡ some frag
      → f name t cs depth ≡ violations rt names f frag.selection_set t cs depth)
    (by_budget : (name : String) (t : NamedType) (cs cs' : List Constraint) (depth depth' b : ℕ)
      → Left cs depth b
      → Left cs' depth' b
      → f name t cs depth ≡ none
      → f name t cs' depth' ≡ none)
    (bound : String → ℕ)
    (covers : (name : String) (frag : Fragment)
      → names.get_fragment name ≡ some frag
      → bound name ≡ selections_steps bound frag.selection_set)
    (rank : String → ℕ) (ranked : Ranked names.get_fragment rank) (cuts : ℕ) where
  abbrev SelectionWalked : ℕ → Selection → Type 0
  SelectionWalked k s =
      (more : Selections) (t : NamedType) (depth : ℕ) (cs : List Constraint) (b : ℕ)
      (key : Option SpreadKey) (c0 : ℕ) (stack : List Frame) (active : List String)
      (clean : List SpreadKey)
      → Known names.schema t
      → SpreadBelow rank k s
      → OpenFrom rank k active
      → Left cs depth b
      → IsProven names.schema f clean
      → Outcome rt names f cuts (selection_steps bound s)
          (before rt names f more t depth cs key c0 stack active clean cuts s)
          (λ clean'. after rt names f more t depth cs key c0 stack active clean' cuts)
          (violation_in rt names f s t cs depth)

  abbrev pub LevelWalked : ℕ → Selections → Type 0
  LevelWalked k s =
      (t : NamedType) (depth : ℕ) (cs : List Constraint) (b : ℕ) (key : Option SpreadKey) (c0 : ℕ)
      (stack : List Frame) (active : List String) (clean : List SpreadKey)
      → Known names.schema t
      → SpreadsBelow rank k s
      → OpenFrom rank k active
      → Left cs depth b
      → IsProven names.schema f clean
      → Outcome rt names f cuts (selections_steps bound s)
          (state (level s t depth cs key c0) stack active clean cuts)
          (λ clean'. state (level nil t depth cs key c0) stack active clean' cuts)
          (violations rt names f s t cs depth)

  -- A spread, given the levels of lower rank.
  spread-walked :
      (k : ℕ) (ih : (j : ℕ) → j < k → (s : Selections) → LevelWalked j s) (name : String)
      (directives : List Directive)
      → SelectionWalked k (spread name directives)
  unfolding selection_steps
  spread-walked k ih name directives more t depth cs b key c0 stack active clean known lt opened
        left proven =
      elim (step-spread rt names f more t depth cs key c0 stack active clean cuts name directives b
        closed left.1) [
          | inl (st, z) ↦ Outcome-jump rt names f cuts _ _ _ clean _ (omega arith) proven st z
          | inr (frag, e, v, inl (r, st)) ↦
              Outcome-jump rt names f cuts _ _ _ clean _ (omega arith) proven st (
                v
                ∙ proven.at_key name (type_or names.schema frag.type_condition t) b
                    (Known-type_or rt names.schema frag.type_condition t types known) r cs depth
                    left)
          | inr (frag, e, v, inr st) ↦
              let u = type_or names.schema frag.type_condition t in
              let ku = Known-type_or rt names.schema frag.type_condition t types known in
              let own = some (spread_key name u b) in
              Outcome-level rt names f cuts (bound name) _
                (state (level frag.selection_set u depth cs own cuts)
                  (level more t depth cs key c0 ∷ stack) (name ∷ active) clean cuts)
                (λ clean'.
                  state (level nil u depth cs own cuts) (level more t depth cs key c0 ∷ stack)
                    (name ∷ active) clean' cuts)
                (λ clean'. after rt names f more t depth cs key c0 stack active clean' cuts)
                (violations rt names f frag.selection_set u cs depth) _ st
                (rw (covers name frag e) (
                  ih (rank name) lt frag.selection_set u depth cs b own cuts
                    (level more t depth cs key c0 ∷ stack) (name ∷ active) clean ku
                    (ranked.below name frag e)
                    (omega arith, OpenFrom-le rank (rank name) k active (omega arith) opened) left
                    proven))
                (λ clean' proven' z. (
                  spread_key name u b ∷ clean',
                  IsProven-cons names.schema f clean' name u b ku
                      (λ cs' depth' left'.
                        by_budget name u cs cs' depth depth' b left left'
                          (solves name frag u cs depth e ∙ z))
                      proven',
                  step-close rt names u t depth depth cs cs own key cuts c0 more stack
                        (name ∷ active) clean' cuts
                      ∙ rw (discard-cons name active closed, ==_self cuts) refl,
                ))
                (v ∙ solves name frag u cs depth e)
        ]
    where
      closed : contains name active ≡ false
      closed = contains-OpenFrom rank k name active opened lt

  module _ (k : ℕ) (ih : (j : ℕ) → j < k → (s : Selections) → LevelWalked j s) where
    mutual
      unfolding selections_steps violation_in

      selections-walked : (s : Selections) → LevelWalked k s
      selections-walked nil t depth cs b key c0 stack active clean known below opened left proven =
          (clean, proven, Leads-refl (step rt names) _)
      selections-walked (cons s more) t depth cs b key c0 stack active clean known below opened left
            proven =
          Outcome-trans rt names f cuts (selection_steps bound s) (selections_steps bound more) _
            (λ clean'. after rt names f more t depth cs key c0 stack active clean' cuts) _
            (violation_in rt names f s t cs depth) (violations rt names f more t cs depth)
            (selection-walked s more t depth cs b key c0 stack active clean known below.0 opened
              left proven)
            (λ clean' proven'.
              selections-walked more t depth cs b key c0 stack active clean' known below.1 opened
                left proven')

      selection-walked : (s : Selection) → SelectionWalked k s
      selection-walked (leaf head) more t depth cs b key c0 stack active clean known below opened
            left proven =
          Outcome-jump rt names f cuts 1 _
            (λ clean'. after rt names f more t depth cs key c0 stack active clean' cuts) clean none
            (omega arith) proven
            (step-leaf rt names f more t depth cs key c0 stack active clean cuts head) refl
      selection-walked (field head s) more t depth cs b key c0 stack active clean known below opened
            left proven =
          elim (step-field rt names f more t depth cs key c0 stack active clean cuts head s) [
            | inl (st, z) ↦
                Outcome-jump rt names f cuts _ _
                  (λ clean'. after rt names f more t depth cs key c0 stack active clean' cuts) clean
                  _ (omega arith) proven st z
            | inr (inl (c, st, z)) ↦
                Outcome-done rt names f cuts _ _
                  (λ clean'. after rt names f more t depth cs key c0 stack active clean' cuts) clean
                  _ c (omega arith) proven st z
            | inr (inr (d, look, x, st, v)) ↦
                let u = rt.get_named_type d.type in
                let cs' = child_constraints rt cs u (depth + 1) in
                Outcome-level rt names f cuts (selections_steps bound s) _ _
                  (λ clean'.
                    state (level nil u (depth + 1) cs' none 0)
                      (level more t depth cs key c0 ∷ stack) active clean' cuts)
                  (λ clean'. after rt names f more t depth cs key c0 stack active clean' cuts)
                  (violations rt names f s u cs' (depth + 1)) _ st
                  (selections-walked s u (depth + 1) cs' (below_field (type_max_depth rt u) b) none
                    0 (level more t depth cs key c0 ∷ stack) active clean
                    (types.with_fields t head.name d known look) below opened
                    (Left-child rt cs u depth b left x) proven)
                  (λ clean' proven' z. (
                    clean',
                    proven',
                    step-close rt names u t (depth + 1) depth cs' cs none key 0 c0 more stack active
                        clean' cuts,
                  ))
                  v
          ]
      selection-walked (inline condition directives s) more t depth cs b key c0 stack active clean
            known below opened left proven =
          elim (step-inline rt names f more t depth cs key c0 stack active clean cuts condition
            directives s) [
              | inl (st, z) ↦
                  Outcome-jump rt names f cuts _ _
                    (λ clean'. after rt names f more t depth cs key c0 stack active clean' cuts)
                    clean _ (omega arith) proven st z
              | inr (st, v) ↦
                  let u = inline_type names.schema condition t in
                  Outcome-level rt names f cuts (selections_steps bound s) _ _
                    (λ clean'.
                      state (level nil u depth cs none 0) (level more t depth cs key c0 ∷ stack)
                        active clean' cuts)
                    (λ clean'. after rt names f more t depth cs key c0 stack active clean' cuts)
                    (violations rt names f s u cs depth) _ st
                    (selections-walked s u depth cs b none 0 (level more t depth cs key c0 ∷ stack)
                      active clean (Known-inline_type rt names.schema condition t types known) below
                      opened left proven)
                    (λ clean' proven' z. (
                      clean',
                      proven',
                      step-close rt names u t depth depth cs cs none key 0 c0 more stack active
                          clean' cuts,
                    ))
                    v
            ]
      selection-walked (spread name directives) more t depth cs b key c0 stack active clean known
            below opened left proven =
          spread-walked k ih name directives more t depth cs b key c0 stack active clean known below
            opened left proven

  -- Strong induction on the rank.
  walked-upto : (r k : ℕ) → k ≤ r → (s : Selections) → LevelWalked k s
  walked-upto zero k le = selections-walked k (λ j lt. absurd (omega arith))
  walked-upto (suc r) k le = selections-walked k (λ j lt. walked-upto r j (omega arith))

  pub walked : (k : ℕ) (s : Selections) → LevelWalked k s
  walked k = walked-upto k k (omega arith)
