-- ===== src/Cost/Weights.antt =====
-- The weights of one field: `_type_complexity`, `_own_cost`, `_directive_cost`, `_is_list_field`,
-- `_page_size_argument` and `_list_multiplier` of cost.py.
use django_graphex.Common.{
  ℕ, ◌+◌, ◌*◌, min, Bool, true, false, ◌||◌, not, String, Option, none, some, List, [], ◌∷◌, ℤ, pos,
  pos_part, lookup, if◌then◌else◌, str_eq, ◌==◌,
}
use django_graphex.StrConv.{to_snake_case, codes}
use django_graphex.Graphql.Ast.{
  ValueNode, int_value, variable, bool_value, other_value, Argument, Directive, FieldHead, TypeRef,
  named, list_of, non_null, FieldDef, NamedType, Variables, Runtime, gdx_meta, int_of,
}

-- The settings of the `DJANGO_GRAPHEX` namespace that the analysis reads. Sizes are natural
-- numbers; the pagination arguments are lists of code points.
pub record CostSettings : Type 0 where
  pub cost_pagination_args : List (List ℕ)
  pub cost_directive : Option ℕ
  pub max_page_size : Option ℕ
  pub default_page_size : Option ℕ
  pub default_list_multiplier : Option ℕ
  pub max_query_cost : Option ℕ

-- `_CostAnalyzer.__init__`: what an analyzer holds besides its memo table and its counter.
pub record Context : Type 0 where
  pub runtime : Runtime
  pub settings : CostSettings
  pub variable_values : Variables
  pub variable_defaults : List (String × Option ValueNode)

unfoldable pub type_complexity : Runtime → NamedType → Option ℕ
unfolding gdx_meta int_of
type_complexity rt t = elim (gdx_meta t) [
  | none ↦ none
  | some meta ↦ elim meta.complexity [
    | none ↦ none
    | some value ↦ elim (int_of rt value) [ some (pos n) ↦ some n | _ ↦ none ]
  ]
]

unfoldable pub own_cost : Runtime → NamedType → Bool → ℕ
unfolding type_complexity
own_cost rt t has_children = elim (type_complexity rt t) [
  | some declared ↦ declared
  | none ↦ if has_children then 1 else 0
]

count_used : List Directive → ℕ
count_used [] = 0
count_used (d ∷ directives) =
    (if str_eq d.name "skip" || str_eq d.name "include" then 0 else 1) + count_used directives

or_zero : Option ℕ → ℕ
or_zero none = 0
or_zero (some n) = n

unfoldable pub directive_cost : CostSettings → List Directive → ℕ
unfolding count_used or_zero
directive_cost settings directives = count_used directives * or_zero settings.cost_directive

-- The text of an argument's name is a pagination argument, in snake_case.
eq_codes : List ℕ → List ℕ → Bool
eq_codes [] [] = true
eq_codes (a ∷ s) (b ∷ t) = let rest = eq_codes s t in if a == b then rest else false
eq_codes _ _ = false

among : List ℕ → List (List ℕ) → Bool
unfolding eq_codes
among name [] = false
among name (j ∷ names) = eq_codes (to_snake_case j) name || among name names

is_pagination_arg : CostSettings → String → Bool
unfolding among to_snake_case codes
is_pagination_arg settings name = among (to_snake_case (codes name)) settings.cost_pagination_args

default_size : Option (Option ValueNode) → Option ℤ
default_size (some (some (int_value z))) = some z
default_size _ = none

-- The value of the first pagination argument: a literal, a bound variable (none if it is no
-- number), else the variable's declared default.
argument_size : Context → ValueNode → Option ℤ
unfolding int_of default_size
argument_size ctx (int_value z) = some z
argument_size ctx (variable name) = elim (lookup name ctx.variable_values) [
  | some value ↦ int_of ctx.runtime value
  | none ↦ default_size (lookup name ctx.variable_defaults)
]
argument_size ctx (bool_value b) = none
argument_size ctx other_value = none

unfoldable pub page_size_argument : Context → List Argument → Option ℤ
unfolding argument_size is_pagination_arg
page_size_argument ctx [] = none
page_size_argument ctx (a ∷ arguments) =
    if is_pagination_arg ctx.settings a.name
    then argument_size ctx a.value
    else page_size_argument ctx arguments

-- `bool(getattr(meta, "results_field_name", None))`
is_results_wrapper : Runtime → TypeRef → Bool
unfolding gdx_meta
is_results_wrapper rt t = elim (gdx_meta (rt.get_named_type t)) [
  | none ↦ false
  | some meta ↦ elim meta.results_field_name [ none ↦ false | some name ↦ not (str_eq name "") ]
]

is_list_type : Runtime → TypeRef → Bool
unfolding is_results_wrapper
is_list_type rt (list_of t) = true
is_list_type rt (non_null t) = is_list_type rt t
is_list_type rt (named name) = is_results_wrapper rt (named name)

unfoldable pub is_list_field : Runtime → FieldDef → Bool
unfolding is_list_type
is_list_field rt field_def = is_list_type rt field_def.type

-- `value` of a setting where the code tests its truth: none and 0 are false.
abbrev pub truthy : Option ℕ → Option ℕ
truthy none = none
truthy (some n) = if n == 0 then none else some n

capped : ℕ → Option ℕ → ℕ
capped size none = size
capped size (some limit) = min size limit

-- The fallback of a list without a page size: MAX_PAGE_SIZE, else DEFAULT_PAGE_SIZE, else
-- DEFAULT_LIST_MULTIPLIER or 1.
fallback : Option ℕ → Option ℕ → Option ℕ → ℕ
fallback (some limit) _ _ = limit
fallback none (some size) _ = size
fallback none none (some n) = n
fallback none none none = 1

unfoldable pub list_multiplier : Context → FieldHead → FieldDef → ℕ
unfolding is_list_field page_size_argument capped fallback
list_multiplier ctx head field_def =
    if is_list_field ctx.runtime field_def
    then (elim (page_size_argument ctx head.arguments) [
      | some size ↦ capped (pos_part size) (truthy ctx.settings.max_page_size)
      | none ↦
          fallback (truthy ctx.settings.max_page_size) (truthy ctx.settings.default_page_size)
            (truthy ctx.settings.default_list_multiplier)
    ])
    else 1
