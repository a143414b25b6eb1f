-- ===== src/Depth/Rule.antt =====
-- `enter_document` and `enter_operation_definition` of `DepthLimitValidationRule`.
use mathlib.Core.Option
use django_graphex.Common.{
  ℕ, Bool, false, String, Option, none, some, List, [], ◌∷◌, ◌++◌, is_some, if◌then◌else◌, ◌>>=◌,
}
use django_graphex.Graphql.Ast.{
  OperationType, query, mutation, subscription, Operation, Definition, Runtime, Schema, root_type,
}
use django_graphex.Fragments.{find_fragment_cycle}
use django_graphex.Cost.Report.{document_names, operations_of}
use django_graphex.Cost.Analyzer.{Names}
use django_graphex.Depth.Limits.{Constraint}
use django_graphex.Depth.Walker.{SpreadKey, Found, walk}

-- `_MAX_STRUCTURAL_DEPTH`
abbrev pub max_structural_depth : ℕ
max_structural_depth = 100

-- `node.operation.value`
abbrev pub operation_value : OperationType → String
operation_value query = "query"
operation_value mutation = "mutation"
operation_value subscription = "subscription"

-- `DepthLimitValidationRule.__init__`, and the errors that the rule has reported.
pub record Rule : Type 0 where
  pub cyclic_fragments : Bool
  pub clean_spreads : List SpreadKey
  pub cycle_cuts : ℕ
  pub errors : List Constraint

unfoldable pub enter_document : List Definition → Rule → Rule
enter_document definitions rule = record rule {
  cyclic_fragments = is_some (find_fragment_cycle definitions);
}

-- MAX_QUERY_DEPTH, if set, and then the structural ceiling.
unfoldable pub initial_constraints : Option ℕ → OperationType → List Constraint
initial_constraints none op =
    record { limit = max_structural_depth; origin = 0; label = operation_value op } ∷ []
initial_constraints (some limit) op =
    record { limit = limit; origin = 0; label = operation_value op }
    ∷ record { limit = max_structural_depth; origin = 0; label = operation_value op }
    ∷ []

unfoldable pub initial_rule : Rule
initial_rule = record { cyclic_fragments = false; clean_spreads = []; cycle_cuts = 0; errors = [] }

abbrev pub with_reported : List Constraint → Option Constraint → List Constraint
with_reported errors none = errors
with_reported errors (some constraint) = errors ++ constraint ∷ []

unfoldable pub after_walk : Rule → Found → Rule
after_walk rule f = record rule {
  clean_spreads = f.clean_spreads;
  cycle_cuts = f.cycle_cuts;
  errors = with_reported rule.errors f.reported;
}

-- None is a walk that ran out of fuel.
unfoldable pub enter_operation_definition :
    Runtime → Option ℕ → Names → ℕ → Operation → Rule → Option Rule
enter_operation_definition rt max_query_depth names fuel op rule =
    if rule.cyclic_fragments then some rule else (elim (root_type names.schema op.operation) [
      | none ↦ some rule
      | some t ↦ Option.map (after_walk rule) (
          walk rt names fuel op.selection_set t 0 (initial_constraints max_query_depth op.operation)
            rule.clean_spreads rule.cycle_cuts)
    ])

-- The operations of a document, in the order in which the visitor meets them.
unfoldable pub enter_operations :
    Runtime → Option ℕ → Names → ℕ → List Operation → Rule → Option Rule
enter_operations rt max_query_depth names fuel [] rule = some rule
enter_operations rt max_query_depth names fuel (op ∷ operations) rule = do
  rule' ← enter_operation_definition rt max_query_depth names fuel op rule
  enter_operations rt max_query_depth names fuel operations rule'

-- The errors of a document: the visitor enters the document, and then its operations in order.
unfoldable pub document_errors :
    Runtime → Option ℕ → Schema → ℕ → List Definition → Option (List Constraint)
document_errors rt max_query_depth schema fuel definitions =
    Option.map (λ (rule : Rule). rule.errors)
      (enter_operations rt max_query_depth (document_names schema definitions) fuel
        (operations_of definitions) (enter_document definitions initial_rule))
