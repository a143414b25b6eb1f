-- ===== src/Depth/Refinement/Stable.antt =====
-- The reference's equation for a spread, once the unfolding covers the fragment's rank, and its
-- dependence on the budget alone.
use django_graphex.Common.{
  ℕ, zero, suc, ◌<◌, ◌≡◌, refl, ◌∙◌, String, Option, some, none, List, arith, lookup, Option-cases,
  inl, inr, false, ◌+◌, is_some, sym, ap,
}
use django_graphex.Graphql.Ast.{
  Selection, leaf, field, inline, spread, Selections, nil, cons, NamedType, Fragment, Runtime,
  type_or,
}
use django_graphex.Graphql.Ranked.{SpreadsBelow, SpreadBelow, Ranked}
use django_graphex.Cost.Analyzer.{Names, inline_type}
use django_graphex.Depth.Limits.{Constraint, child_constraints}
use django_graphex.Depth.Reference.{Spreads, violation_in, violations, spread_violation}
use django_graphex.Depth.Budget.Agree.{Left, spread_violation-fits}

module _ (rt : Runtime) (names : Names) (rank : String → ℕ) (k : ℕ) (f g : Spreads)
    (agree : (name : String) (t : NamedType) (cs : List Constraint) (depth : ℕ)
      → rank name < k
      → f name t cs depth ≡ g name t cs depth) where
  mutual
    unfolding violation_in

    violations-agree :
        (s : Selections) (t : NamedType) (cs : List Constraint) (depth : ℕ)
        → SpreadsBelow rank k s
        → violations rt names f s t cs depth ≡ violations rt names g s t cs depth
    violations-agree nil t cs depth b = refl
    violations-agree (cons s more) t cs depth b =
        cc (violation_in-agree s t cs depth b.0, violations-agree more t cs depth b.1)

    violation_in-agree :
        (s : Selection) (t : NamedType) (cs : List Constraint) (depth : ℕ)
        → SpreadBelow rank k s
        → violation_in rt names f s t cs depth ≡ violation_in rt names g s t cs depth
    violation_in-agree (leaf head) t cs depth b = refl
    violation_in-agree (field head selections) t cs depth b =
        elim (Option-cases (lookup head.name t.fields)) [
          | inl e ↦ rw e
          | inr (d, e) ↦ rw e (
              rw (
                violations-agree selections (rt.get_named_type d.type)
                  (child_constraints rt cs (rt.get_named_type d.type) (depth + 1)) (depth + 1) b))
        ]
    violation_in-agree (inline condition directives selections) t cs depth b =
        rw (violations-agree selections (inline_type names.schema condition t) cs depth b)
    violation_in-agree (spread name directives) t cs depth b =
        elim (Option-cases (names.get_fragment name)) [
          | inl e ↦ rw e
          | inr (frag, e) ↦
              rw e (rw (agree name (type_or names.schema frag.type_condition t) cs depth b))
        ]

module _ (rt : Runtime) (names : Names) (rank : String → ℕ)
    (ranked : Ranked names.get_fragment rank) where
  spread_violation_stable :
      (n k : ℕ) (name : String) (t : NamedType) (cs : List Constraint) (depth : ℕ)
      → rank name < n
      → rank name < k
      → spread_violation rt names n name t cs depth ≡ spread_violation rt names k name t cs depth
  unfolding spread_violation
  spread_violation_stable zero k name t cs depth h h' = elim h [ ]
  spread_violation_stable (suc n) zero name t cs depth h h' = elim h' [ ]
  spread_violation_stable (suc n) (suc k) name t cs depth h h' =
      elim (Option-cases (names.get_fragment name)) [
        | inl e ↦ rw (e, spread_violation)
        | inr (frag, e) ↦
            rw (e, spread_violation)
              (violations-agree rt names rank (rank name) (spread_violation rt names n)
                (spread_violation rt names k)
                (λ m u c d lt. spread_violation_stable n k m u c d (omega arith) (omega arith))
                frag.selection_set t cs depth (ranked.below name frag e))
      ]

  spread_violation-suc :
      (k : ℕ) (name : String) (frag : Fragment) (t : NamedType) (cs : List Constraint) (depth : ℕ)
      → names.get_fragment name ≡ some frag
      → spread_violation rt names (suc k) name t cs depth
        ≡ violations rt names (spread_violation rt names k) frag.selection_set t cs depth
  unfolding spread_violation
  spread_violation-suc k name frag t cs depth e = rw (e, spread_violation)

  pub spread_violation_unfold :
      (k : ℕ) (name : String) (frag : Fragment) (t : NamedType) (cs : List Constraint) (depth : ℕ)
      → names.get_fragment name ≡ some frag
      → rank name < k
      → spread_violation rt names k name t cs depth
        ≡ violations rt names (spread_violation rt names k) frag.selection_set t cs depth
  spread_violation_unfold zero name frag t cs depth e h = elim h [ ]
  spread_violation_unfold (suc k) name frag t cs depth e h =
      spread_violation-suc k name frag t cs depth e
      ∙ violations-agree rt names rank (rank name) (spread_violation rt names k)
          (spread_violation rt names (suc k))
          (λ m u c d lt. spread_violation_stable k (suc k) m u c d (omega arith) (omega arith))
          frag.selection_set t cs depth (ranked.below name frag e)

is_some-none : {A : Type 0} (o : Option A) → is_some o ≡ false → o ≡ none
is_some-none none e = refl
is_some-none (some a) e = absurd (cc e)

-- Where as much budget is left, a spread is as clean.
pub spread_violation-budget :
    (rt : Runtime) (names : Names) (k : ℕ) (name : String) (t : NamedType)
    (cs cs' : List Constraint) (depth depth' b : ℕ)
    → Left cs depth b
    → Left cs' depth' b
    → spread_violation rt names k name t cs depth ≡ none
    → spread_violation rt names k name t cs' depth' ≡ none
spread_violation-budget rt names k name t cs cs' depth depth' b l l' e =
    is_some-none (spread_violation rt names k name t cs' depth') (
      spread_violation-fits rt names k name t cs' depth' b l'
      ∙ sym (spread_violation-fits rt names k name t cs depth b l)
      ∙ ap is_some e)
