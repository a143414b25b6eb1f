-- ===== src/Socket/Starting.antt =====
-- When an operation starts: `run_operation_start` against the conditions that it stands for.
use django_graphex.Common.{true, ◌≡◌, ◌≢◌, some, []}
use django_graphex.Security.Errors.{Formatted, Error}
use django_graphex.Socket.Json.{Json, Members, get, is_truthy}
use django_graphex.Socket.Startup.{
  Raises, returns, Core, Stage, goes, fails, stream, start_source_event_stream,
}

module _ {D S X : Type 0} (core : Core D S X) (format : Error → Formatted) where
  -- A query that parses, a subscription that the name selects, a schema with subscriptions, no
  -- validation error, and a source.
  abbrev pub Starts : Raises S → Members → Type 0
  Starts resolved_schema payload =
      (document : D) × (schema : S) × (is_truthy (get "query" payload) ≡ true)
      × (core.parse (get "query" payload) ≡ returns document)
      × (core.operation document (get "operationName" payload) ≡ some true)
      × (resolved_schema ≡ returns schema)
      × (core.has_subscription_type schema ≡ true)
      × (core.validate schema document ≡ returns [])
      × (start_source_event_stream core format schema document (get "variables" payload)
            (get "operationName" payload)
          ≡ stream)

-- A start that fails tells the client why.
abbrev pub IsFramed : {A : Type 0} → Stage A → Type 0
IsFramed (goes a) = Unit
IsFramed (fails errors) = errors ≢ []
