-- ===== src/Cost/Report.antt =====
-- `analyze_cost` and `CostLimitValidationRule` of cost.py.
pub mod Laws
use django_graphex.Common.{
  ℕ, suc, ◌<◌, Bool, true, false, String, Option, none, some, List, [], ◌∷◌, ◌++◌, length, ltb,
  if◌then◌else◌, str_eq, is_some,
}
use django_graphex.Graphql.Ast.{
  Fragment, Operation, Definition, operation, fragment, type_system, Schema, Variables, Runtime,
  ValueNode,
}
use django_graphex.Fragments.{put, find_fragment_cycle}
use django_graphex.Fragments.Verdict.{get_fragment}
use django_graphex.Cost.Weights.{CostSettings, Context, truthy}
use django_graphex.Cost.Analyzer.{Names, operation_cost}

pub record CostReport : Type 0 where
  pub total : ℕ
  pub max_cost : Option ℕ

-- A report, the GraphQLError of a cyclic document with the fragment it names, or, in the model
-- only, a walk that ran out of fuel.
pub data Analysis : Type 0 where
  report : CostReport → Analysis
  cyclic : Fragment → Analysis
  out_of_fuel : Analysis

unfoldable pub operations_of : List Definition → List Operation
operations_of [] = []
operations_of (operation op ∷ definitions) = op ∷ operations_of definitions
operations_of (fragment frag ∷ definitions) = operations_of definitions
operations_of (type_system ∷ definitions) = operations_of definitions

is_named : String → Operation → Bool
is_named name op = elim op.name [ none ↦ false | some n ↦ str_eq n name ]

find_named : String → List Operation → Option Operation
unfolding is_named
find_named name [] = none
find_named name (op ∷ operations) = if is_named name op then some op else find_named name operations

first : List Operation → Option Operation
first [] = none
first (op ∷ operations) = some op

-- The operation of that name, or the first one.
unfoldable pub select_operation : Option String → List Operation → Option Operation
unfolding find_named first
select_operation none operations = first operations
select_operation (some name) operations = find_named name operations

insert_defaults :
    List (String × Option ValueNode)
    → List (String × Option ValueNode)
    → List (String × Option ValueNode)
insert_defaults [] defaults = defaults
insert_defaults ((name, value) ∷ definitions) defaults =
    insert_defaults definitions (put name value defaults)

-- `_variable_defaults`
unfoldable pub variable_defaults : Operation → List (String × Option ValueNode)
unfolding insert_defaults
variable_defaults op = insert_defaults op.variable_definitions []

answer : Option ℕ → Option ℕ → Analysis
answer max_cost none = out_of_fuel
answer max_cost (some total) = report (record { total = total; max_cost = max_cost })

abbrev pub document_names : Schema → List Definition → Names
document_names schema definitions = record {
  schema = schema;
  get_fragment = get_fragment definitions;
}

-- The analyzer's view of the variables.
abbrev pub context : Runtime → CostSettings → Variables → List (String × Option ValueNode) → Context
context rt settings variables defaults = record {
  runtime = rt;
  settings = settings;
  variable_values = variables;
  variable_defaults = defaults;
}

unfoldable pub analyze_cost :
    Runtime → CostSettings → Schema → ℕ → List Definition → Option String → Variables → Analysis
unfolding answer
analyze_cost rt settings schema fuel definitions operation_name variables =
    elim (find_fragment_cycle definitions) [
      | some frag ↦ cyclic frag
      | none ↦ elim (select_operation operation_name (operations_of definitions)) [
        | none ↦ report (record { total = 0; max_cost = settings.max_query_cost })
        | some op ↦ answer settings.max_query_cost (
            operation_cost (context rt settings variables (variable_defaults op))
              (document_names schema definitions) fuel op)
      ]
    ]

-- The message's numbers.
pub record CostError : Type 0 where
  pub total : ℕ
  pub limit : ℕ

-- The rule's flag and the errors that it has reported.
pub record Rule : Type 0 where
  pub cyclic_fragments : Bool
  pub errors : List CostError

unfoldable pub enter_document : List Definition → Rule → Rule
enter_document definitions rule = record rule {
  cyclic_fragments = is_some (find_fragment_cycle definitions);
}

-- Variables are unbound while a document is validated, and its own defaults are not trusted.
abbrev pub unbound : Runtime → CostSettings → Context
unbound rt settings = context rt settings [] []

judge : Rule → ℕ → Option ℕ → Option Rule
judge rule limit none = none
judge rule limit (some total) = some (
    if ltb limit total
    then record rule { errors = rule.errors ++ record { total = total; limit = limit } ∷ [] }
    else rule)

-- None is a walk that ran out of fuel.
unfoldable pub enter_operation_definition :
    Runtime → CostSettings → Names → ℕ → Operation → Rule → Option Rule
unfolding judge
enter_operation_definition rt settings names fuel op rule =
    if rule.cyclic_fragments then some rule else (elim (truthy settings.max_query_cost) [
      | none ↦ some rule
      | some limit ↦ judge rule limit (operation_cost (unbound rt settings) names fuel op)
    ])
