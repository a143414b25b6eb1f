-- ===== src/Cost/Refinement/Levels/Whole.antt =====
-- A whole level, by recursion on its selections; the fragments that it spreads have lower rank.
use native.Mathlib.Nat.{add-zero, add_assoc}
use django_graphex.Common.{
  ℕ, zero, suc, ◌+◌, ◌<◌, ◌≤◌, ◌≡◌, refl, ap, String, true, false, Option, none, some, List, ◌∷◌,
  contains, arith, inl, inr, ◌==◌,
}
use django_graphex.Graphql.Ast.{
  Selection, leaf, field, inline, spread, Selections, nil, cons, Fragment, NamedType, type_or,
  Directive,
}
use django_graphex.Cost.Weights.{Context}
use django_graphex.Cost.Analyzer.{Names, Memo, Key, Frame, weighted, inline_type, step}
use django_graphex.Cost.Formula.{Spreads, selection_cost, selections_cost}
use django_graphex.Graphql.Ranked.{SpreadsBelow, SpreadBelow, Ranked}
use django_graphex.Machine.{Leads-refl, Leads-trans, Leads-jump, Leads-level}
use django_graphex.Cost.Refinement.Assumptions.{
  Known, OpenFrom, OpenFrom-le, Known-type_or, Known-inline_type, contains-OpenFrom, discard-cons,
  IsTrue, IsTrue-cons, TypeMap,
}
use django_graphex.Cost.Refinement.Levels.Steps.{
  selections_steps, selection_steps, level, walk, Through, WalkedBelow,
}
use django_graphex.Cost.Refinement.Levels.Selection.{
  before, after, step-leaf, step-field, step-inline, step-spread, step-close,
}

-- Two levels that differ in a total are equal if the totals are.
walk-total :
    (s : Selections) (t : NamedType) (m n : ℕ) (w : Option (ℕ × ℕ)) (k : Option Key) (c0 : ℕ)
    (stack : List Frame) (active : List String) (memo : Memo) (cuts : ℕ)
    → m ≡ n
    → walk (level s t m w k c0) stack active memo cuts
      ≡ walk (level s t n w k c0) stack active memo cuts
walk-total s t m n w k c0 stack active memo cuts e =
    ap (λ (x : ℕ). walk (level s t x w k c0) stack active memo cuts) e

==_self : (n : ℕ) → (n == n) ≡ true
==_self n = ground arith

module _ (ctx : Context) (names : Names) (types : TypeMap ctx.runtime names.schema) (f : Spreads)
    (solves : (name : String) (frag : Fragment) (t : NamedType)
      → names.get_fragment name ≡ some frag
      → f name t ≡ selections_cost ctx names f frag.selection_set t)
    (bound : String → ℕ)
    (covers : (name : String) (frag : Fragment)
      → names.get_fragment name ≡ some frag
      → bound name ≡ selections_steps bound frag.selection_set)
    (rank : String → ℕ) (ranked : Ranked names.get_fragment rank) where
  abbrev SelectionWalked : ℕ → Selection → Type 0
  SelectionWalked k s =
      (more : Selections) (t : NamedType) (total : ℕ) (weights : Option (ℕ × ℕ)) (key : Option Key)
      (c0 : ℕ) (stack : List Frame) (active : List String) (memo : Memo) (cuts : ℕ)
      → Known names.schema t
      → SpreadBelow rank k s
      → OpenFrom rank k active
      → IsTrue names.schema f memo
      → Through ctx names f (selection_steps bound s)
          (before ctx names f more t total weights key c0 stack active memo cuts s)
          (λ memo'.
            after ctx names f more t total weights key c0 stack active memo' cuts
              (total + selection_cost ctx names f s t))

  abbrev LevelWalked : ℕ → Selections → Type 0
  LevelWalked k s =
      (t : NamedType) (total : ℕ) (weights : Option (ℕ × ℕ)) (key : Option Key) (c0 : ℕ)
      (stack : List Frame) (active : List String) (memo : Memo) (cuts : ℕ)
      → Known names.schema t
      → SpreadsBelow rank k s
      → OpenFrom rank k active
      → IsTrue names.schema f memo
      → Through ctx names f (selections_steps bound s)
          (walk (level s t total weights key c0) stack active memo cuts)
          (λ memo'.
            walk (level nil t (total + selections_cost ctx names f s t) weights key c0) stack active
              memo' cuts)

  -- A spread, given the levels of lower rank.
  spread-walked :
      (k : ℕ) (ih : (j : ℕ) → j < k → WalkedBelow ctx names f bound rank j) (name : String)
      (directives : List Directive)
      → SelectionWalked k (spread name directives)
  unfolding selection_steps weighted
  spread-walked k ih name directives more t total w key c0 stack active memo cuts known lt opened
        true_memo =
      elim (step-spread ctx names f more t total w key c0 stack active memo cuts name directives
        closed) [
          | inl (st, z) ↦ (
            memo,
            true_memo,
            Leads-jump (step ctx names) (2 + bound name) _ _ _ (omega arith) st
                (walk-total more t _ _ w key c0 stack active memo cuts (omega (arith, z))),
          )
          | inr (frag, e, cost, inl (c, r, st)) ↦ (
            memo,
            true_memo,
            Leads-jump (step ctx names) (2 + bound name) _ _ _ (omega arith) st (
                walk-total more t _ _ w key c0 stack active memo cuts (
                  omega (
                    arith,
                    cost,
                    true_memo.at_key name (type_or names.schema frag.type_condition t) c
                        (Known-type_or ctx.runtime names.schema frag.type_condition t types known)
                        r,
                  ))),
          )
          | inr (frag, e, cost, inr st) ↦
              let u = type_or names.schema frag.type_condition t in
              let ku = Known-type_or ctx.runtime names.schema frag.type_condition t types known in
              let inner = selections_cost ctx names f frag.selection_set u in
              let (memo', true_memo', lead) =
                ih (rank name) lt frag.selection_set u 0 none (some (name, u.name)) cuts
                  (level more t total w key c0 ∷ stack) (name ∷ active) memo cuts ku
                  (ranked.below name frag e)
                  (omega arith, OpenFrom-le rank (rank name) k active (omega arith) opened)
                  true_memo in
              (
                ((name, u.name), 0 + inner) ∷ memo',
                IsTrue-cons names.schema f memo' name u (0 + inner) ku
                    (omega (arith, solves name frag u e)) true_memo',
                Leads-level (step ctx names) (bound name) _ _ _ _ _ st
                    (rw (covers name frag e) lead)
                    (step-close ctx names u t (0 + inner) total none w (some (name, u.name)) key
                      cuts c0 more stack (name ∷ active) memo' cuts)
                    (rw (==_self cuts) (
                      rw (discard-cons name active closed) (
                        walk-total more t _ _ w key c0 stack active
                          (((name, u.name), 0 + inner) ∷ memo') cuts
                          (omega (arith, cost, solves name frag u e))))),
              )
        ]
    where
      closed : contains name active ≡ false
      closed = contains-OpenFrom rank k name active opened lt

  module _ (k : ℕ) (ih : (j : ℕ) → j < k → WalkedBelow ctx names f bound rank j) where
    mutual
      unfolding selections_steps weighted selections_cost

      selections-walked : (s : Selections) → LevelWalked k s
      selections-walked nil t total w key c0 stack active memo cuts known below opened true_memo =
          (memo, true_memo, rw add-zero (Leads-refl (step ctx names) _))
      selections-walked (cons s more) t total w key c0 stack active memo cuts known below opened
            true_memo =
          let (memo₁, true₁, lead₁) =
            selection-walked s more t total w key c0 stack active memo cuts known below.0 opened
              true_memo in
          let (memo₂, true₂, lead₂) =
            selections-walked more t (total + selection_cost ctx names f s t) w key c0 stack active
              memo₁ cuts known below.1 opened true₁ in
          (
            memo₂,
            true₂,
            rw
                (← add_assoc total (selection_cost ctx names f s t)
                  (selections_cost ctx names f more t))
                (Leads-trans (step ctx names) _ _ _ _ _ lead₁ lead₂),
          )

      selection-walked : (s : Selection) → SelectionWalked k s
      selection-walked (leaf head) more t total w key c0 stack active memo cuts known below opened
            true_memo =
          (
            memo,
            true_memo,
            Leads-jump (step ctx names) 1 _ _ _ (omega arith)
                (step-leaf ctx names f more t total w key c0 stack active memo cuts head) refl,
          )
      selection-walked (field head s) more t total w key c0 stack active memo cuts known below
            opened true_memo =
          elim (step-field ctx names f more t total w key c0 stack active memo cuts head s) [
            | inl (st, z) ↦ (
              memo,
              true_memo,
              Leads-jump (step ctx names) _ _ _ _ (omega arith) st
                  (walk-total more t _ _ w key c0 stack active memo cuts (omega (arith, z))),
            )
            | inr (d, own, multiplier, look, st, cost) ↦
                let u = ctx.runtime.get_named_type d.type in
                let (memo', true', lead) =
                  selections-walked s u 0 (some (own, multiplier)) none 0
                    (level more t total w key c0 ∷ stack) active memo cuts
                    (types.with_fields t head.name d known look) below opened true_memo in
                (
                  memo',
                  true',
                  Leads-level (step ctx names) _ _ _ _ _ _ st lead
                      (step-close ctx names u t _ total (some (own, multiplier)) w none key 0 c0
                        more stack active memo' cuts)
                      (walk-total more t _ _ w key c0 stack active memo' cuts
                        (omega (arith, cost))),
                )
          ]
      selection-walked (inline condition directives s) more t total w key c0 stack active memo cuts
            known below opened true_memo =
          elim (step-inline ctx names f more t total w key c0 stack active memo cuts condition
            directives s) [
              | inl (st, z) ↦ (
                memo,
                true_memo,
                Leads-jump (step ctx names) _ _ _ _ (omega arith) st
                    (walk-total more t _ _ w key c0 stack active memo cuts (omega (arith, z))),
              )
              | inr (st, cost) ↦
                  let u = inline_type names.schema condition t in
                  let (memo', true', lead) =
                    selections-walked s u 0 none none 0 (level more t total w key c0 ∷ stack) active
                      memo cuts (Known-inline_type ctx.runtime names.schema condition t types known)
                      below opened true_memo in
                  (
                    memo',
                    true',
                    Leads-level (step ctx names) _ _ _ _ _ _ st lead
                        (step-close ctx names u t _ total none w none key 0 c0 more stack active
                          memo' cuts)
                        (walk-total more t _ _ w key c0 stack active memo' cuts
                          (omega (arith, cost))),
                  )
            ]
      selection-walked (spread name directives) more t total w key c0 stack active memo cuts known
            below opened true_memo =
          spread-walked k ih name directives more t total w key c0 stack active memo cuts known
            below opened true_memo

  -- Strong induction on the rank.
  walked-upto : (r k : ℕ) → k ≤ r → WalkedBelow ctx names f bound rank k
  walked-upto zero k le = selections-walked k (λ j lt. absurd (omega arith))
  walked-upto (suc r) k le = selections-walked k (λ j lt. walked-upto r j (omega arith))

  pub walked : (k : ℕ) → WalkedBelow ctx names f bound rank k
  walked k = walked-upto k k (omega arith)
