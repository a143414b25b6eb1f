-- ===== src/Depth/Reference.antt =====
-- What the walk looks for, by recursion on the selections and with no stack, set or guard: the
-- first violation in the document's order. `spread_value` gives a spread's.
use text.Mathlib.Text.{starts_with}
use django_graphex.Common.{
  ℕ, zero, suc, ◌+◌, String, Option, none, some, List, [], lookup, if◌then◌else◌,
}
use django_graphex.Graphql.Ast.{
  Selection, leaf, field, inline, spread, Selections, nil, cons, NamedType, Runtime, type_or,
}
use django_graphex.Graphql.Directives.{is_selection_skipped}
use django_graphex.Cost.Analyzer.{Names, inline_type}
use django_graphex.Depth.Limits.{Constraint, first_exceeded, child_constraints}

abbrev pub Spreads : Type 0
Spreads = String → NamedType → List Constraint → ℕ → Option Constraint

abbrev pub or_else : Option Constraint → Option Constraint → Option Constraint
or_else none b = b
or_else (some c) b = some c

module _ (rt : Runtime) (names : Names) (spread_value : Spreads) where
  unfoldable mutual
    pub violation_in : Selection → NamedType → List Constraint → ℕ → Option Constraint
    violation_in (leaf head) t cs depth = none
    violation_in (field head selections) t cs depth =
        let below : Option Constraint = elim (lookup head.name t.fields) [
          | none ↦ none
          | some d ↦
              violations selections (rt.get_named_type d.type)
                (child_constraints rt cs (rt.get_named_type d.type) (depth + 1)) (depth + 1)
        ] in
        if is_selection_skipped rt (field head selections) []
        then none
        else if starts_with head.name "__"
        then none
        else or_else (first_exceeded cs (depth + 1)) below
    violation_in (inline condition directives selections) t cs depth =
        let below = violations selections (inline_type names.schema condition t) cs depth in
        if is_selection_skipped rt (inline condition directives selections) [] then none else below
    violation_in (spread name directives) t cs depth =
        if is_selection_skipped rt (spread name directives) []
        then none
        else (elim (names.get_fragment name) [
          | none ↦ none
          | some frag ↦ spread_value name (type_or names.schema frag.type_condition t) cs depth
        ])

    pub violations : Selections → NamedType → List Constraint → ℕ → Option Constraint
    violations nil t cs depth = none
    violations (cons selection more) t cs depth =
        or_else (violation_in selection t cs depth) (violations more t cs depth)

-- Spreads unfolded at most `k` deep.
unfoldable pub spread_violation : Runtime → Names → ℕ → Spreads
spread_violation rt names zero name t cs depth = none
spread_violation rt names (suc k) name t cs depth = elim (names.get_fragment name) [
  | none ↦ none
  | some frag ↦ violations rt names (spread_violation rt names k) frag.selection_set t cs depth
]
