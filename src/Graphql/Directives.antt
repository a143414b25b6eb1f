-- ===== src/Graphql/Directives.antt =====
-- django_graphex/_directives_eval.py: which selections `@skip` and `@include` leave out.
use django_graphex.Common.{Bool, true, false, Option, none, some, List, [], if◌then◌else◌}
use django_graphex.Common.{String}
use django_graphex.Graphql.Ast.{
  Value, bool, Directive, Selection, leaf, field, inline, spread, Variables, raises, absent, values,
  Runtime,
}

-- `_safe_get_directive_values`: a GraphQLError counts as an absent directive.
unfoldable pub safe_get_directive_values :
    Runtime → String → List Directive → Variables → Option (Option Value)
safe_get_directive_values rt name directives variables =
    elim (rt.get_directive_values name directives variables) [
      | raises ↦ none
      | absent ↦ none
      | values condition ↦ some condition
    ]

-- `args is not None and args.get("if") is True`, and the same for False.
abbrev pub is_bool : Bool → Option (Option Value) → Bool
is_bool true (some (some (bool true))) = true
is_bool false (some (some (bool false))) = true
is_bool _ _ = false

abbrev pub directives_of : Selection → List Directive
directives_of (leaf head) = head.directives
directives_of (field head selections) = head.directives
directives_of (inline condition directives selections) = directives
directives_of (spread name directives) = directives

skipped_by : Runtime → List Directive → Variables → Bool
unfolding safe_get_directive_values
skipped_by rt [] variables = false
skipped_by rt directives variables =
    if is_bool true (safe_get_directive_values rt "skip" directives variables)
    then true
    else is_bool false (safe_get_directive_values rt "include" directives variables)

unfoldable pub is_selection_skipped : Runtime → Selection → Variables → Bool
unfolding skipped_by
is_selection_skipped rt selection variables = skipped_by rt (directives_of selection) variables
