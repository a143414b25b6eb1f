-- ===== src/Depth/Budget/Agree.antt =====
-- A violation is found exactly when the budget does not fit.
use django_graphex.Common.{
  ℕ, zero, suc, ◌+◌, ◌-◌, ◌≤◌, ◌≡◌, refl, Bool, false, not, String, Option, none, some, List, [],
  ◌∷◌, ◌++◌, lookup, arith, is_some, min, Option-cases, inl, inr, ◌==◌,
}
use django_graphex.Graphql.Ast.{
  Selection, leaf, field, inline, spread, Selections, nil, cons, NamedType, Runtime, type_or,
}
use django_graphex.Cost.Analyzer.{Names, inline_type}
use django_graphex.Depth.Limits.{
  Constraint, type_max_depth, first_exceeded, child_constraints, budget,
}
use django_graphex.Depth.Reference.{Spreads, violation_in, violations, spread_violation}
use django_graphex.Depth.Budget.Fits.{SpreadFits, fits, fits_in, spread_fits, below_field}

-- No constraint is broken at this depth, and none starts below it.
abbrev pub Within : List Constraint → ℕ → Type 0
Within [] depth = Unit
Within (c ∷ cs) depth = (c.origin ≤ depth) × (depth - c.origin ≤ c.limit) × Within cs depth

-- The tightest budget, where there is one.
abbrev pub Left : List Constraint → ℕ → ℕ → Type 0
Left cs depth b = Within cs depth × (budget cs depth ≡ some b)

abbrev used_up : Option ℕ → Bool
used_up none = false
used_up (some b) = b == 0

first_exceeded-budget :
    (cs : List Constraint) (depth : ℕ)
    → Within cs depth
    → is_some (first_exceeded cs (depth + 1)) ≡ used_up (budget cs depth)
unfolding first_exceeded budget
first_exceeded-budget [] depth w = refl
first_exceeded-budget (c ∷ cs) depth w = ground (arith, first_exceeded-budget cs depth w.2)

abbrev one_less : Option ℕ → Option ℕ
one_less none = none
one_less (some b) = some (b - 1)

budget-suc :
    (cs : List Constraint) (depth : ℕ)
    → Within cs depth
    → first_exceeded cs (depth + 1) ≡ none
    → Within cs (depth + 1) × (budget cs (depth + 1) ≡ one_less (budget cs depth))
unfolding first_exceeded budget
budget-suc [] depth w e = (tt, refl)
budget-suc (c ∷ cs) depth w e = ground (arith, budget-suc cs depth w.2)

Within-append :
    (cs : List Constraint) (depth limit : ℕ) (label : String)
    → Within cs depth
    → Within (cs ++ record { limit = limit; origin = depth; label = label } ∷ []) depth
Within-append [] depth limit label w = (omega arith, omega arith, tt)
Within-append (c ∷ cs) depth limit label w = (w.0, w.1, Within-append cs depth limit label w.2)

abbrev min_with : ℕ → Option ℕ → Option ℕ
min_with limit none = some limit
min_with limit (some b) = some (min b limit)

budget-append :
    (cs : List Constraint) (depth limit : ℕ) (label : String)
    → budget (cs ++ record { limit = limit; origin = depth; label = label } ∷ []) depth
      ≡ min_with limit (budget cs depth)
unfolding budget
budget-append [] depth limit label = ground arith
budget-append (c ∷ cs) depth limit label = ground (arith, budget-append cs depth limit label)

-- The budget below a field that breaks no constraint.
pub Left-child :
    (rt : Runtime) (cs : List Constraint) (t : NamedType) (depth b : ℕ)
    → Left cs depth b
    → first_exceeded cs (depth + 1) ≡ none
    → Left (child_constraints rt cs t (depth + 1)) (depth + 1) (below_field (type_max_depth rt t) b)
unfolding child_constraints
Left-child rt cs t depth b h e =
    let (within, left) = budget-suc cs depth h.0 e in
    elim (Option-cases (type_max_depth rt t)) [
      | inl n ↦ rw (n, child_constraints) (within, ground arith)
      | inr (limit, n) ↦
          rw (n, child_constraints)
            (
              Within-append cs (depth + 1) limit t.name within,
              ground (arith, budget-append cs (depth + 1) limit t.name),
            )
    ]

module _ (rt : Runtime) (names : Names) (f : Spreads) (g : SpreadFits)
    (agree : (name : String) (t : NamedType) (cs : List Constraint) (depth b : ℕ)
      → Left cs depth b
      → is_some (f name t cs depth) ≡ not (g name t b)) where
  mutual
    unfolding violation_in fits_in

    violations-fits :
        (s : Selections) (t : NamedType) (cs : List Constraint) (depth b : ℕ)
        → Left cs depth b
        → is_some (violations rt names f s t cs depth) ≡ not (fits rt names g s t b)
    violations-fits nil t cs depth b h = refl
    violations-fits (cons s more) t cs depth b h =
        ground (arith, violation_in-fits s t cs depth b h, violations-fits more t cs depth b h)

    violation_in-fits :
        (s : Selection) (t : NamedType) (cs : List Constraint) (depth b : ℕ)
        → Left cs depth b
        → is_some (violation_in rt names f s t cs depth) ≡ not (fits_in rt names g s t b)
    violation_in-fits (leaf head) t cs depth b h = refl
    violation_in-fits (field head s) t cs depth b h =
        elim (Option-cases (lookup head.name t.fields)) [
          | inl e ↦ ground (arith, first_exceeded-budget cs depth h.0)
          | inr (d, e) ↦ ground (
            arith,
            first_exceeded-budget cs depth h.0,
            violations-fits s (rt.get_named_type d.type)
                (child_constraints rt cs (rt.get_named_type d.type) (depth + 1)) (depth + 1)
                (below_field (type_max_depth rt (rt.get_named_type d.type)) b),
            Left-child rt cs (rt.get_named_type d.type) depth b h,
          )
        ]
    violation_in-fits (inline condition directives s) t cs depth b h =
        ground (arith, violations-fits s (inline_type names.schema condition t) cs depth b h)
    violation_in-fits (spread name directives) t cs depth b h =
        elim (Option-cases (names.get_fragment name)) [
          | inl e ↦ ground arith
          | inr (frag, e) ↦
              ground (arith, agree name (type_or names.schema frag.type_condition t) cs depth b h)
        ]

pub spread_violation-fits :
    (rt : Runtime) (names : Names) (k : ℕ) (name : String) (t : NamedType) (cs : List Constraint)
    (depth b : ℕ)
    → Left cs depth b
    → is_some (spread_violation rt names k name t cs depth) ≡ not (spread_fits rt names k name t b)
unfolding spread_violation spread_fits
spread_violation-fits rt names zero name t cs depth b h = refl
spread_violation-fits rt names (suc k) name t cs depth b h =
    elim (Option-cases (names.get_fragment name)) [
      | inl e ↦ rw (e, spread_violation, spread_fits) refl
      | inr (frag, e) ↦
          rw (e, spread_violation, spread_fits)
            (violations-fits rt names (spread_violation rt names k) (spread_fits rt names k)
              (spread_violation-fits rt names k) frag.selection_set t cs depth b h)
    ]

-- Whether the reference finds a violation depends on the tightest budget alone.
pub violations-budget :
    (rt : Runtime) (names : Names) (k : ℕ) (s : Selections) (t : NamedType) (cs : List Constraint)
    (depth b : ℕ)
    → Left cs depth b
    → is_some (violations rt names (spread_violation rt names k) s t cs depth)
      ≡ not (fits rt names (spread_fits rt names k) s t b)
violations-budget rt names k =
    violations-fits rt names (spread_violation rt names k) (spread_fits rt names k)
      (spread_violation-fits rt names k)
