-- ===== src/Cost/Refinement/Fuel.antt =====
-- How many steps the walk takes, at most: each spread counted with the steps of its fragment.
use django_graphex.Common.{
  ℕ, zero, suc, ◌<◌, ◌≡◌, refl, ◌∙◌, String, none, some, arith, Option-cases, inl, inr,
}
use django_graphex.Graphql.Ast.{
  Selection, leaf, field, inline, spread, Selections, nil, cons, Fragment,
}
use django_graphex.Cost.Analyzer.{Names}
use django_graphex.Graphql.Ranked.{SpreadsBelow, SpreadBelow, Ranked}
use django_graphex.Cost.Refinement.Levels.Steps.{selections_steps, selection_steps}

unfoldable pub spread_steps : Names → ℕ → String → ℕ
spread_steps names zero name = 0
spread_steps names (suc k) name = elim (names.get_fragment name) [
  | none ↦ 0
  | some frag ↦ selections_steps (spread_steps names k) frag.selection_set
]

-- The fuel for an operation with these selections: its steps, and the one that ends the walk.
unfoldable pub enough : Names → ℕ → Selections → ℕ
unfolding spread_steps
enough names k s = suc (selections_steps (spread_steps names k) s)

module _ (rank : String → ℕ) (k : ℕ) (f g : String → ℕ)
    (agree : (name : String) → rank name < k → f name ≡ g name) where
  mutual
    unfolding selections_steps

    selections_steps-agree :
        (s : Selections) → SpreadsBelow rank k s → selections_steps f s ≡ selections_steps g s
    selections_steps-agree nil b = refl
    selections_steps-agree (cons s more) b =
        omega (arith, selection_steps-agree s b.0, selections_steps-agree more b.1)

    selection_steps-agree :
        (s : Selection) → SpreadBelow rank k s → selection_steps f s ≡ selection_steps g s
    selection_steps-agree (leaf head) b = refl
    selection_steps-agree (field head s) b = omega (arith, selections_steps-agree s b)
    selection_steps-agree (inline condition directives s) b =
        omega (arith, selections_steps-agree s b)
    selection_steps-agree (spread name directives) b = omega (arith, agree name b)

module _ (names : Names) (rank : String → ℕ) (ranked : Ranked names.get_fragment rank) where
  spread_steps_stable :
      (n k : ℕ) (name : String)
      → rank name < n
      → rank name < k
      → spread_steps names n name ≡ spread_steps names k name
  unfolding spread_steps
  spread_steps_stable zero k name h h' = elim h [ ]
  spread_steps_stable (suc n) zero name h h' = elim h' [ ]
  spread_steps_stable (suc n) (suc k) name h h' = elim (Option-cases (names.get_fragment name)) [
    | inl e ↦ rw (e, spread_steps)
    | inr (frag, e) ↦
        rw (e, spread_steps)
          (selections_steps-agree rank (rank name) (spread_steps names n) (spread_steps names k)
            (λ m lt. spread_steps_stable n k m (omega arith) (omega arith)) frag.selection_set
            (ranked.below name frag e))
  ]

  spread_steps-suc :
      (k : ℕ) (name : String) (frag : Fragment)
      → names.get_fragment name ≡ some frag
      → spread_steps names (suc k) name ≡ selections_steps (spread_steps names k) frag.selection_set
  unfolding spread_steps
  spread_steps-suc k name frag e = rw (e, spread_steps)

  pub spread_steps_unfold :
      (k : ℕ) (name : String) (frag : Fragment)
      → names.get_fragment name ≡ some frag
      → rank name < k
      → spread_steps names k name ≡ selections_steps (spread_steps names k) frag.selection_set
  spread_steps_unfold zero name frag e h = elim h [ ]
  spread_steps_unfold (suc k) name frag e h =
      spread_steps-suc k name frag e
      ∙ selections_steps-agree rank (rank name) (spread_steps names k) (spread_steps names (suc k))
          (λ m lt. spread_steps_stable k (suc k) m (omega arith) (omega arith)) frag.selection_set
          (ranked.below name frag e)
