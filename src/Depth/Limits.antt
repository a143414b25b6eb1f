-- ===== src/Depth/Limits.antt =====
-- Depth budgets: `_Constraint`, `_type_max_depth` and the tests that `_walk` makes on them.
use django_graphex.Common.{
  ℕ, ◌-◌, min, String, Option, none, some, List, [], ◌∷◌, ◌++◌, pos, ltb, if◌then◌else◌,
}
use django_graphex.Graphql.Ast.{NamedType, Runtime, gdx_meta, int_of}

pub record Constraint : Type 0 where
  pub limit : ℕ
  pub origin : ℕ
  pub label : String

unfoldable pub type_max_depth : Runtime → NamedType → Option ℕ
unfolding gdx_meta int_of
type_max_depth rt t = elim (gdx_meta t) [
  | none ↦ none
  | some meta ↦ elim meta.max_depth [
    | none ↦ none
    | some value ↦ elim (int_of rt value) [ some (pos n) ↦ some n | _ ↦ none ]
  ]
]

-- The first constraint that a level at `child_depth` breaks.
unfoldable pub first_exceeded : List Constraint → ℕ → Option Constraint
first_exceeded [] child_depth = none
first_exceeded (c ∷ constraints) child_depth =
    if ltb c.limit (child_depth - c.origin) then some c else first_exceeded constraints child_depth

-- The constraints below a field of type `t` at `child_depth`.
unfoldable pub child_constraints : Runtime → List Constraint → NamedType → ℕ → List Constraint
child_constraints rt constraints t child_depth = elim (type_max_depth rt t) [
  | none ↦ constraints
  | some limit ↦ constraints ++ record { limit = limit; origin = child_depth; label = t.name } ∷ []
]

abbrev pub min_opt : ℕ → Option ℕ → Option ℕ
min_opt a none = some a
min_opt a (some b) = some (min a b)

-- `min((c.limit - (depth - c.origin) for c in constraints), default=None)`
unfoldable pub budget : List Constraint → ℕ → Option ℕ
budget [] depth = none
budget (c ∷ constraints) depth = min_opt (c.limit - (depth - c.origin)) (budget constraints depth)
