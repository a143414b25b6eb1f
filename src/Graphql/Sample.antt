-- ===== src/Graphql/Sample.antt =====
-- A small schema and a runtime that follows graphql-core's documented behaviour, for the examples:
-- `Query { users: [User!]!, me: User, page: UserPage }`, `UserPage { results: [User] }` and
-- `User { name: String, friends: [User] }`.
use django_graphex.Common.{
  String, Option, none, some, List, [], ◌∷◌, lookup, if◌then◌else◌, str_eq, pos,
}
use django_graphex.Graphql.Ast.{
  bool, int, ValueNode, int_value, variable, bool_value, other_value, Argument, Directive,
  FieldHead, leaf, field, nil, cons, Fragment, TypeRef, named, list_of, non_null, FieldDef, Meta,
  NamedType, Schema, Variables, DirectiveValues, raises, absent, values, Runtime,
}

abbrev field_def : TypeRef → FieldDef
field_def t = record { type = t }

abbrev object : String → List (String × FieldDef) → Option Meta → NamedType
object name fields meta = record {
  name = name;
  fields = fields;
  graphene_type = none;
  extensions_gdx = meta;
}

abbrev pub string_type : NamedType
string_type = object "String" [] none

abbrev pub user_type : NamedType
user_type =
    object "User"
      (("name", field_def (named "String")) ∷ ("friends", field_def (list_of (named "User"))) ∷ [])
      (some
        (record { complexity = none; max_depth = some (int (pos 2)); results_field_name = none }))

abbrev pub page_type : NamedType
page_type = object "UserPage" (("results", field_def (list_of (named "User"))) ∷ []) (
    some (record {
      complexity = some (int (pos 3));
      max_depth = none;
      results_field_name = some "results";
    }))

abbrev pub query_type : NamedType
query_type =
    object "Query"
      (("users", field_def (non_null (list_of (non_null (named "User")))))
        ∷ ("me", field_def (named "User"))
        ∷ ("page", field_def (named "UserPage"))
        ∷ [])
      none

abbrev pub types : List (String × NamedType)
types =
    ("Query", query_type)
    ∷ ("UserPage", page_type)
    ∷ ("User", user_type)
    ∷ ("String", string_type)
    ∷ []

abbrev pub schema : Schema
schema = record {
  query_type = some query_type;
  mutation_type = none;
  subscription_type = none;
  get_type = λ name. lookup name types;
}

abbrev pub or_string : Option NamedType → NamedType
or_string none = string_type
or_string (some t) = t

abbrev pub named_type : TypeRef → NamedType
named_type (named name) = or_string (lookup name types)
named_type (list_of t) = named_type t
named_type (non_null t) = named_type t

abbrev condition : Variables → List Argument → DirectiveValues
condition variables [] = raises
condition variables (a ∷ arguments) = elim a.value [
  | bool_value b ↦ values (some (bool b))
  | variable name ↦ elim (lookup name variables) [ some v ↦ values (some v) | none ↦ raises ]
  | int_value z ↦ raises
  | other_value ↦ raises
]

abbrev directive_values : String → List Directive → Variables → DirectiveValues
directive_values name [] variables = absent
directive_values name (d ∷ directives) variables =
    if str_eq d.name name
    then condition variables d.arguments
    else directive_values name directives variables

abbrev pub runtime : Runtime
runtime = record {
  get_directive_values = directive_values;
  get_named_type = named_type;
  int_of_text = λ s. none;
}

abbrev pub plain : String → FieldHead
plain name = record { name = name; arguments = []; directives = [] }

abbrev pub sized : String → String → ValueNode → FieldHead
sized name argument value = record {
  name = name;
  arguments = record { name = argument; value = value } ∷ [];
  directives = [];
}

-- `fragment F on User { name friends { name } }`
abbrev pub friends_fragment : Fragment
friends_fragment = record {
  name = "F";
  type_condition = "User";
  selection_set =
      cons (leaf (plain "name"))
        (cons (field (plain "friends") (cons (leaf (plain "name")) nil)) nil);
}
