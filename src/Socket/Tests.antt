-- ===== src/Socket/Tests.antt =====
-- Connections of one client: two operations, one of them completed by the client, then a frame that
-- cannot be decoded.
use django_graphex.Common.{
  Bool, true, false, ◌≡◌, ◌↔◌, refl, String, none, some, List, [], ◌∷◌, length,
}
use django_graphex.Security.Errors.{Formatted, Error}
use django_graphex.Socket.Json.{Json, string, object, Members, empty, member, string_key}
use django_graphex.Socket.State.{find, accepts, sends, closes, connection_ack}
use django_graphex.Socket.Startup.{Core, returns, executor, stream, message}
use django_graphex.Socket.Teardown.{Config}
use django_graphex.Socket.Steps.{Event, receives, authenticates, starts, proceeds, connection}
use django_graphex.Socket.Definitions.{serves, feeds, Fits}
use django_graphex.Socket.Safety.{connection-registered, connection-admits}
use django_graphex.Socket.Closing.{connection-IsLast}
use django_graphex.Socket.Quiet.{IsLast}
use django_graphex.Socket.Admission.{answered, connection-authenticated}

abbrev sample_core : Core String Bool Unit
sample_core = record {
  parse = λ query. returns "document";
  names = λ document. none ∷ [];
  operation = λ document name. some true;
  has_subscription_type = λ schema. schema;
  validate = λ schema document. returns [];
  build = λ schema document variables name. executor tt;
  create_source_event_stream = λ x. stream;
  str = λ e. "error";
  repr = λ value. "value";
}

abbrev sample_format : Error → Formatted
sample_format e = message "masked"

abbrev sample_config : Config
sample_config = record { on_connect = true; max_subscriptions = some 2; str = λ n. "2" }

abbrev init : Json
init = object (member "type" (string "connection_init") empty)

abbrev sample_payload : Members
sample_payload = member "query" (string "subscription") empty

abbrev subscribes : String → Json
subscribes id = object (
    member "type" (string "subscribe")
      (member "id" (string id) (member "payload" (object sample_payload) empty)))

abbrev complete_of_a : Members
complete_of_a = member "type" (string "complete") (member "id" (string "a") empty)

abbrev offered : List String
offered = "graphql-transport-ws" ∷ []

abbrev admitted : List (Event Bool)
admitted =
    receives (some init) none
    ∷ authenticates (some ("ann", true))
    ∷ receives (some (subscribes "a")) none
    ∷ starts 0 (returns true)
    ∷ receives (some (subscribes "b")) none
    ∷ starts 1 (returns true)
    ∷ []

-- Behind them, a frame that cannot be decoded, and the teardown.
abbrev closed : List (Event Bool)
closed =
    receives (some init) none
    ∷ authenticates (some ("ann", true))
    ∷ receives (some (subscribes "a")) none
    ∷ starts 0 (returns true)
    ∷ receives none none
    ∷ proceeds none
    ∷ proceeds none
    ∷ []

closed_runs :
    (connection sample_core sample_format sample_config "" offered closed).output
    ≡ closes 4400 ∷ sends none connection_ack ∷ accepts ∷ []
unfolding connection
closed_runs = refl

connection-registered_example :
    let c = connection sample_core sample_format sample_config "" offered admitted in
    ((serves (string_key "a") (c.tasks 0) ≡ true) ↔ (find (string_key "a") c.operations ≡ some 0))
    × ((feeds (string_key "a") (c.tasks 0) ≡ true) ↔ (find (string_key "a") c.sources ≡ some 0))
connection-registered_example =
    connection-registered sample_core sample_format sample_config "" offered admitted
      (string_key "a") 0

connection-admits_example :
    let c = connection sample_core sample_format sample_config "" offered admitted in
    Fits (some 2) (length c.operations) × (c.acked ≡ false → c.operations ≡ [])
connection-admits_example =
    connection-admits sample_core sample_format sample_config "" offered admitted

connection-IsLast_example :
    IsLast (connection sample_core sample_format sample_config "" offered closed).output
connection-IsLast_example =
    connection-IsLast sample_core sample_format sample_config "" offered closed

connection-authenticated_example :
    answered (connection sample_core sample_format sample_config "" offered admitted).user admitted
    ≡ true
unfolding connection
connection-authenticated_example =
    connection-authenticated sample_core sample_format sample_config refl "" offered admitted refl
