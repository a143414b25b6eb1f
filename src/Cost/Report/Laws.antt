-- ===== src/Cost/Report/Laws.antt =====
-- What the analysis reports, and when the rule refuses an operation.
use django_graphex.Common.{
  ℕ, suc, ◌≤◌, ◌≡◌, refl, false, String, Option, none, some, List, [], ◌∷◌, ◌++◌, length, ltb,
  arith, if◌then◌else◌,
}
use django_graphex.Graphql.Ast.{
  Operation, Definition, NamedType, Schema, Variables, Runtime, ValueNode, root_type,
}
use django_graphex.Fragments.{fragments_of, find_fragment_cycle}
use django_graphex.Fragments.Verdict.{none-IsAcyclic}
use django_graphex.Cost.Weights.{CostSettings, Context, truthy}
use django_graphex.Cost.Analyzer.{operation_cost}
use django_graphex.Cost.Formula.{selections_cost, spread_cost}
use django_graphex.Cost.Refinement.Assumptions.{TypeMap}
use django_graphex.Cost.Refinement.Fuel.{enough}
use django_graphex.Cost.Refinement.Result.{operation_cost_lem}
use django_graphex.Cost.Report.{
  report, operations_of, select_operation, analyze_cost, document_names, variable_defaults, context,
  Rule, enter_document, enter_operation_definition, unbound,
}

-- The levels to which the formula unfolds the spreads of a document.
abbrev pub levels : List Definition → ℕ
levels definitions = suc (length (fragments_of definitions))

-- The cost that the header's formula gives to an operation.
abbrev pub formula_cost : Context → Schema → List Definition → Operation → NamedType → ℕ
formula_cost ctx schema definitions op t =
    let names = document_names schema definitions in
    selections_cost ctx names (spread_cost ctx names (levels definitions)) op.selection_set t

module _ (rt : Runtime) (settings : CostSettings) (schema : Schema) (types : TypeMap rt schema)
    (definitions : List Definition) where
  walk_result :
      (variables : Variables) (defaults : List (String × Option ValueNode)) (op : Operation)
      (t : NamedType) (fuel : ℕ)
      → find_fragment_cycle definitions ≡ none
      → root_type schema op.operation ≡ some t
      → enough (document_names schema definitions) (levels definitions) op.selection_set ≤ fuel
      → operation_cost
          (context rt settings variables defaults)
          (document_names schema definitions)
          fuel
          op
        ≡ some (formula_cost (context rt settings variables defaults) schema definitions op t)
  walk_result variables defaults op t fuel acyclic e le =
      let a = none-IsAcyclic definitions acyclic in
      operation_cost_lem (context rt settings variables defaults)
        (document_names schema definitions) types a.rank a.ranked (levels definitions)
        (λ name. omega (arith, a.bounded name)) op t fuel e le

  -- The report of a document without a cycle, for the operation that is selected: the walk ends,
  -- and its total is the formula's cost with the bound variables and the declared defaults.
  pub analyze_cost-formula :
      (operation_name : Option String) (variables : Variables) (op : Operation) (t : NamedType)
      (fuel : ℕ)
      → find_fragment_cycle definitions ≡ none
      → select_operation operation_name (operations_of definitions) ≡ some op
      → root_type schema op.operation ≡ some t
      → enough (document_names schema definitions) (levels definitions) op.selection_set ≤ fuel
      → analyze_cost rt settings schema fuel definitions operation_name variables
        ≡ report (record {
          total =
              formula_cost
                (context rt settings variables (variable_defaults op))
                schema
                definitions
                op
                t;
          max_cost = settings.max_query_cost;
        })
  unfolding analyze_cost
  analyze_cost-formula operation_name variables op t fuel acyclic chosen e le =
      rw
        (
          acyclic,
          chosen,
          walk_result variables (variable_defaults op) op t fuel acyclic e le,
          analyze_cost,
        )
        refl

  -- The rule, on a document without a cycle and with a budget: it reports an error for an operation
  -- exactly when the formula's cost, with no variable bound, is above the budget.
  pub enter_operation_definition-formula :
      (limit : ℕ) (op : Operation) (t : NamedType) (rule : Rule) (fuel : ℕ)
      → find_fragment_cycle definitions ≡ none
      → truthy settings.max_query_cost ≡ some limit
      → root_type schema op.operation ≡ some t
      → enough (document_names schema definitions) (levels definitions) op.selection_set ≤ fuel
      → enter_operation_definition rt settings
          (document_names schema definitions)
          fuel
          op
          (enter_document definitions rule)
        ≡ some (
            let total = formula_cost (unbound rt settings) schema definitions op t in
            record {
              cyclic_fragments = false;
              errors =
                  if ltb limit total
                  then rule.errors ++ record { total = total; limit = limit } ∷ []
                  else rule.errors;
            })
  unfolding enter_operation_definition enter_document
  enter_operation_definition-formula limit op t rule fuel acyclic budget e le =
      ground (arith, walk_result [] [] op t fuel acyclic e le)
