-- ===== src/Cost/Formula/Ranked.antt =====
-- Documents whose fragments do not refer to one another in a circle: each has a rank above those
-- that it spreads, and unfolding that many levels gives its cost.
use django_graphex.Common.{
  ℕ, zero, suc, ◌<◌, ◌≡◌, refl, ◌∙◌, String, some, arith, lookup, Option-cases, inl, inr,
}
use django_graphex.Graphql.Ast.{
  Selection, leaf, field, inline, spread, Selections, nil, cons, NamedType, Fragment, type_or,
}
use django_graphex.Graphql.Ranked.{SpreadsBelow, SpreadBelow, Ranked}
use django_graphex.Cost.Weights.{Context}
use django_graphex.Cost.Analyzer.{Names, inline_type}
use django_graphex.Cost.Formula.{Spreads, selection_cost, selections_cost, spread_cost}

-- The cost of selections depends on the spreads that they can reach.
module _ (ctx : Context) (names : Names) (rank : String → ℕ) (k : ℕ) (f g : Spreads)
    (agree : (name : String) (t : NamedType) → rank name < k → f name t ≡ g name t) where
  mutual
    unfolding selection_cost

    selections_cost-agree :
        (s : Selections) (t : NamedType)
        → SpreadsBelow rank k s
        → selections_cost ctx names f s t ≡ selections_cost ctx names g s t
    selections_cost-agree nil t b = refl
    selections_cost-agree (cons s more) t b =
        cc (selection_cost-agree s t b.0, selections_cost-agree more t b.1)

    selection_cost-agree :
        (s : Selection) (t : NamedType)
        → SpreadBelow rank k s
        → selection_cost ctx names f s t ≡ selection_cost ctx names g s t
    selection_cost-agree (leaf head) t b = refl
    selection_cost-agree (field head selections) t b =
        elim (Option-cases (lookup head.name t.fields)) [
          | inl e ↦ rw e
          | inr (d, e) ↦
              rw e (rw (selections_cost-agree selections (ctx.runtime.get_named_type d.type) b))
        ]
    selection_cost-agree (inline condition directives selections) t b =
        rw (selections_cost-agree selections (inline_type names.schema condition t) b)
    selection_cost-agree (spread name directives) t b =
        elim (Option-cases (names.get_fragment name)) [
          | inl e ↦ rw e
          | inr (frag, e) ↦ rw e (rw (agree name (type_or names.schema frag.type_condition t) b))
        ]

-- Unfolding further than the rank changes nothing.
module _ (ctx : Context) (names : Names) (rank : String → ℕ)
    (ranked : Ranked names.get_fragment rank) where
  spread_cost_stable_below :
      (n k : ℕ) (name : String) (t : NamedType)
      → rank name < n
      → rank name < k
      → spread_cost ctx names n name t ≡ spread_cost ctx names k name t
  unfolding spread_cost
  spread_cost_stable_below zero k name t h h' = elim h [ ]
  spread_cost_stable_below (suc n) zero name t h h' = elim h' [ ]
  spread_cost_stable_below (suc n) (suc k) name t h h' =
      elim (Option-cases (names.get_fragment name)) [
        | inl e ↦ rw (e, spread_cost)
        | inr (frag, e) ↦
            rw (e, spread_cost)
              (selections_cost-agree ctx names rank (rank name) (spread_cost ctx names n)
                (spread_cost ctx names k)
                (λ m u lt. spread_cost_stable_below n k m u (omega arith) (omega arith))
                frag.selection_set t (ranked.below name frag e))
      ]

  spread_cost-suc :
      (k : ℕ) (name : String) (frag : Fragment) (t : NamedType)
      → names.get_fragment name ≡ some frag
      → spread_cost ctx names (suc k) name t
        ≡ selections_cost ctx names (spread_cost ctx names k) frag.selection_set t
  unfolding spread_cost
  spread_cost-suc k name frag t e = rw (e, spread_cost)

  -- The formula's equation for a spread, once the unfolding covers its rank.
  pub spread_cost_unfold :
      (k : ℕ) (name : String) (frag : Fragment) (t : NamedType)
      → names.get_fragment name ≡ some frag
      → rank name < k
      → spread_cost ctx names k name t
        ≡ selections_cost ctx names (spread_cost ctx names k) frag.selection_set t
  spread_cost_unfold zero name frag t e h = elim h [ ]
  spread_cost_unfold (suc k) name frag t e h =
      spread_cost-suc k name frag t e
      ∙ selections_cost-agree ctx names rank (rank name) (spread_cost ctx names k)
          (spread_cost ctx names (suc k))
          (λ m u lt. spread_cost_stable_below k (suc k) m u (omega arith) (omega arith))
          frag.selection_set t (ranked.below name frag e)
