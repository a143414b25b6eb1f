-- ===== src/Socket/Startup.antt =====
-- The start of an operation: `_run_operation` up to its source, `_run_operation_framed` around it,
-- and `_start_source_event_stream`.
use Prim.Native.String.{◌++◌ as append}
use django_graphex.Common.{
  Bool, true, false, ◌||◌, ltb, String, Option, none, some, List, [], ◌∷◌, map, lookup, length,
  str_eq, if◌then◌else◌,
}
use django_graphex.Security.Errors.{
  Formatted, Error, graphql, raised, not_raised, absent, mark_client_error, mark_request_error,
  wire_of,
}
use django_graphex.Socket.Json.{
  Json, null, boolean, number, string, array, object, Members, get, is_truthy,
}

pub data Raises (A : Type 0) : Type 0 where
  returns : A → Raises A
  raises : Error → Raises A

-- What graphql-core's `Executor.build` comes to; a `RecursionError` is told apart.
pub data Built (X : Type 0) : Type 0 where
  executor : X → Built X
  invalid : List Error → Built X
  too_deep : Built X
  build_raises : Error → Built X

-- What graphql-core's `create_source_event_stream` comes to: a source, a result with errors, or an
-- exception.
pub data Subscribed : Type 0 where
  stream : Subscribed
  result : List Error → Subscribed
  subscribe_raises : Error → Subscribed

-- The functions of graphql-core, over its documents `D`, schemas `S` and executors `X`. `parse`
-- and `validate` are called in a frame that turns a RecursionError into an error. `operation` is
-- `get_operation_ast`: whether the operation that it selects is a subscription. `names` are the
-- names of the operation definitions.
pub record Core (D S X : Type 0) : Type 0 where
  pub parse : Json → Raises D
  pub names : D → List (Option String)
  pub operation : D → Json → Option Bool
  pub has_subscription_type : S → Bool
  pub validate : S → D → Raises (List Error)
  pub build : S → D → Option Members → Json → Built X
  pub create_source_event_stream : X → Subscribed
  pub str : Error → String
  pub repr : Json → String

abbrev pub message : String → Formatted
message t = record { message = t; locations = none; path = none; extensions = none }

-- `_is_too_deep`
unfoldable pub is_too_deep : Error → Bool
is_too_deep error = elim (wire_of error).extensions [
  | none ↦ false
  | some extensions ↦ (elim (lookup "code" extensions) [
    | none ↦ false
    | some code ↦ str_eq code "QUERY_TOO_DEEP"
  ])
]

-- Whether an operation has the name.
abbrev pub is_named : Json → List (Option String) → Bool
is_named (string s) (some n ∷ names) = str_eq n s || is_named (string s) names
is_named (string s) (none ∷ names) = is_named (string s) names
is_named name names = false

unfoldable pub operation_selection_error :
    (Json → String) → List (Option String) → Json → Option String
operation_selection_error repr operations operation_name =
    if is_truthy operation_name
    then if is_named operation_name operations
      then none
      else some (
          append "This request names operation "
            (append (repr operation_name) ", which this document does not define."))
    else if ltb 1 (length operations)
    then some "This request carries several operations; name the one to run with operationName."
    else none

-- The start goes on with a value, or one `error` frame with these errors ends it.
pub data Stage (A : Type 0) : Type 0 where
  goes : A → Stage A
  fails : List Formatted → Stage A

infixl 5 ◌>>=◌
abbrev pub ◌>>=◌ : {A B : Type 0} → Stage A → (A → Stage B) → Stage B
goes a >>= f = f a
fails errors >>= f = fails errors

module _ {D S X : Type 0} (core : Core D S X) (format : Error → Formatted) where
  abbrev pub parse_error : Error → List Formatted
  unfolding is_too_deep
  parse_error (graphql f c original) =
      if is_too_deep (graphql f c original)
      then format (graphql f c original) ∷ []
      else message (append "Syntax error: " (core.str (graphql f c original))) ∷ []
  parse_error (raised kind t) = format (raised kind t) ∷ []
  parse_error (not_raised t) = format (not_raised t) ∷ []

  abbrev pub parsed : Json → Stage D
  parsed query =
      if is_truthy query
      then (elim (core.parse query) [
        | returns document ↦ goes document
        | raises error ↦ fails (parse_error error)
      ])
      else fails (message "No GraphQL query provided." ∷ [])

  -- Which operation runs; only a subscription does.
  abbrev pub selected : D → Json → Stage D
  selected document name =
      let refused = message "The WS transport only serves subscriptions." ∷ [] in
      elim (core.operation document name) [
        | some true ↦ goes document
        | some false ↦ fails refused
        | none ↦ (elim (operation_selection_error core.repr (core.names document) name) [
          | some problem ↦ fails (message problem ∷ [])
          | none ↦ fails refused
        ])
      ]

  -- `_resolve_schema`, and the schema without subscriptions
  abbrev pub resolved : Raises S → Stage S
  resolved (raises error) = fails (format error ∷ [])
  resolved (returns schema) =
      if core.has_subscription_type schema
      then goes schema
      else fails (message "Subscriptions are not available." ∷ [])

  abbrev pub validated : S → D → Stage D
  validated schema document = elim (core.validate schema document) [
    | returns [] ↦ goes document
    | returns (e ∷ errors) ↦ fails (map format (map mark_client_error (e ∷ errors)))
    | raises error ↦ fails (format error ∷ [])
  ]

  -- `ExecutionResult(data=None, errors=mark_client_errors([GraphQLError(t, extensions=…)]))`
  abbrev pub refusal : String → Option (List (String × String)) → Subscribed
  refusal t extensions =
      let formatted = record (message t) { extensions = extensions } in
      result (mark_client_error (graphql formatted false absent) ∷ [])

  abbrev pub variables_of : Json → Option (Option Members)
  variables_of null = some none
  variables_of (object members) = some (some members)
  variables_of (boolean b) = none
  variables_of (number n) = none
  variables_of (string s) = none
  variables_of (array items) = none

  -- The errors of a result that came before any resolver are the client's.
  abbrev pub marked : Subscribed → Subscribed
  marked stream = stream
  marked (result errors) = result (map mark_request_error errors)
  marked (subscribe_raises error) = subscribe_raises error

  -- `_start_source_event_stream`, where graphql-core has an `Executor`
  unfoldable pub start_source_event_stream : S → D → Json → Json → Subscribed
  start_source_event_stream schema document variable_values operation_name =
      elim (variables_of variable_values) [
        | none ↦
            refusal
              "Variable values must be provided as a dictionary with variable names as keys. Perhaps look to see if an unparsed JSON string was provided."
              none
        | some variables ↦ (elim (core.build schema document variables operation_name) [
          | too_deep ↦
              refusal "Variables are nested too deeply to be coerced."
                (some (("code", "QUERY_TOO_DEEP") ∷ []))
          | invalid errors ↦ result (map mark_client_error errors)
          | build_raises error ↦ subscribe_raises error
          | executor x ↦ marked (core.create_source_event_stream x)
        ])
      ]

  abbrev pub opened : Subscribed → Stage (Unit {0})
  opened stream = goes tt
  opened (subscribe_raises error) = fails (format error ∷ [])
  opened (result []) = fails (message "Subscription could not be started." ∷ [])
  opened (result (e ∷ errors)) = fails (map format (e ∷ errors))

  -- The start of `_run_operation`. What escapes it is one `error` frame too.
  unfoldable pub run_operation_start : Raises S → Members → Stage (Unit {0})
  unfolding start_source_event_stream operation_selection_error
  run_operation_start resolved_schema payload = do
    document ← parsed (get "query" payload)
    selection ← selected document (get "operationName" payload)
    schema ← resolved resolved_schema
    valid ← validated schema document
    opened (
        start_source_event_stream schema document (get "variables" payload)
          (get "operationName" payload))
