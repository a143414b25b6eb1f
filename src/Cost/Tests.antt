-- ===== src/Cost/Tests.antt =====
-- Runs of the cost analysis on the sample schema.
use django_graphex.Common.{
  ◌≡◌, refl, true, false, none, some, List, [], ◌∷◌, arith, ltb, if◌then◌else◌,
}
use django_graphex.Graphql.Ast.{
  variable, int_value, Operation, query, Definition, operation, fragment, leaf, field, spread, nil,
  cons, root_type,
}
use django_graphex.Cost.Refinement.SampleTypes.{sample_types}
use django_graphex.Graphql.Sample.{schema, runtime, query_type, plain, sized, friends_fragment}
use django_graphex.Common.{pos}
use django_graphex.StrConv.{codes}
use django_graphex.Fragments.{find_fragment_cycle, fragments_of, build, reduce, sets}
use django_graphex.StrConv.{to_snake_case}
use django_graphex.Graphql.Ast.{type_or}
use django_graphex.Graphql.Directives.{is_selection_skipped}
use django_graphex.Cost.Formula.{selection_cost, spread_cost}
use django_graphex.Cost.Refinement.Levels.Steps.{selections_steps}
use django_graphex.Cost.Weights.{CostSettings, own_cost, directive_cost, list_multiplier}
use django_graphex.Cost.Refinement.Fuel.{enough}
use django_graphex.Cost.Report.{
  report, analyze_cost, context, variable_defaults, Rule, enter_document, document_names, unbound,
  enter_operation_definition, operations_of, select_operation,
}
use django_graphex.Cost.Report.Laws.{
  formula_cost, analyze_cost-formula, enter_operation_definition-formula,
}

abbrev settings : CostSettings
settings = record {
  cost_pagination_args = codes "limit" ∷ codes "page_size" ∷ [];
  cost_directive = none;
  max_page_size = some 50;
  default_page_size = some 100;
  default_list_multiplier = some 10;
  max_query_cost = some 1000;
}

-- `query ($n: Int = 5) { users(pageSize: $n) { ...F name } }`
abbrev pub op : Operation
op = record {
  name = none;
  operation = query;
  variable_definitions = ("n", some (int_value (pos 5))) ∷ [];
  selection_set =
      cons
        (field (sized "users" "pageSize" (variable "n"))
          (cons (spread "F" []) (cons (leaf (plain "name")) nil)))
        nil;
}

abbrev pub document : List Definition
document = operation op ∷ fragment friends_fragment ∷ []

pub acyclic : find_fragment_cycle document ≡ none
unfolding find_fragment_cycle fragments_of build reduce sets
acyclic = refl

selected : select_operation none (operations_of document) ≡ some op
unfolding select_operation operations_of
selected = refl

pub root : root_type schema op.operation ≡ some query_type
unfolding root_type
root = refl

analyze_cost-formula_example :
    analyze_cost runtime settings schema 40 document none []
    ≡ report (record {
      total =
          formula_cost
            (context runtime settings [] (variable_defaults op))
            schema
            document
            op
            query_type;
      max_cost = some 1000;
    })
analyze_cost-formula_example =
    analyze_cost-formula runtime settings schema sample_types document none [] op query_type 40
      acyclic selected root (unfold enough selections_steps fragments_of in omega arith)

total_runs :
    formula_cost (context runtime settings [] (variable_defaults op)) schema document op query_type
    ≡ 6
unfolding selection_cost spread_cost own_cost directive_cost list_multiplier is_selection_skipped
    fragments_of variable_defaults type_or codes to_snake_case
total_runs = refl

abbrev fresh : Rule
fresh = record { cyclic_fragments = true; errors = [] }

enter_operation_definition-formula_example :
    enter_operation_definition runtime settings
      (document_names schema document)
      40
      op
      (enter_document document fresh)
    ≡ some (
        let total = formula_cost (unbound runtime settings) schema document op query_type in
        record {
          cyclic_fragments = false;
          errors = if ltb 1000 total then record { total = total; limit = 1000 } ∷ [] else [];
        })
enter_operation_definition-formula_example =
    enter_operation_definition-formula runtime settings schema sample_types document 1000 op
      query_type fresh 40 acyclic refl root
      (unfold enough selections_steps fragments_of in omega arith)
