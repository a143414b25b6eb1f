-- ===== src/Socket/Handlers.antt =====
-- The handlers of inbound frames, the close of the socket and its teardown. A handler runs up to
-- its next wait as one piece.
use django_graphex.Socket.Teardown.{Config, send, send_error, close, cancel_operation}
use Prim.Native.String.{◌++◌ as append}
use django_graphex.Common.{
  ℕ, suc, Bool, true, false, not, ◌&&◌, ◌||◌, leb, String, Option, none, some, [], ◌∷◌, length,
  str_eq, if◌then◌else◌,
}
use django_graphex.Security.Errors.{Formatted, Error}
use django_graphex.Socket.Json.{
  Json, null, string, object, Members, empty, get, is_truthy, is_null, Key, key_of,
}
use django_graphex.Socket.State.{
  starting, connection_ack, pong, find, put, InitTask, absent, running, finished, Consumer, set,
}
use django_graphex.Socket.Startup.{message}

-- `self._init_task is not None`
abbrev pub is_begun : InitTask → Bool
is_begun absent = false
is_begun running = true
is_begun finished = true

-- The payload of `connection_init`: None stands for an empty mapping.
unfoldable pub begin_authentication : Json → Consumer → Consumer
unfolding close
begin_authentication null s = record s { init_task = running }
begin_authentication (object payload) s = record s { init_task = running }
begin_authentication payload s = close 4400 s

-- `_on_connection_init`
unfoldable pub on_connection_init : Config → Members → Consumer → Consumer
unfolding close begin_authentication
on_connection_init config content s =
    if s.acked || (config.on_connect && is_begun s.init_task)
    then close 4429 s
    else if config.on_connect
    then begin_authentication (get "payload" content) s
    else send none connection_ack (record s { acked = true; timer = false })

-- `_authenticate_connection`, behind the callback: the callback's user, and whether it is
-- authenticated, or none where the callback raised.
unfoldable pub authenticate_connection : Option (String × Bool) → Consumer → Consumer
unfolding close
authenticate_connection answer s =
    let s' = record s { init_task = finished } in
    if s.closing then s' else (elim answer [
      | none ↦ close 4403 s'
      | some (user, is_authenticated) ↦
          if is_authenticated
          then send none connection_ack (record s' { user = user; acked = true; timer = false })
          else close 4403 s'
    ])

-- `_on_ping`
unfoldable pub on_ping : Members → Consumer → Consumer
on_ping content = send none (pong (get "payload" content))

abbrev pub is_full : Option ℕ → ℕ → Bool
is_full none count = false
is_full (some max_subscriptions) count = leb max_subscriptions count

-- `content.get("payload") or {}`, where that is a mapping
abbrev pub payload_of : Json → Option Members
payload_of (object members) = some members
payload_of payload = if is_truthy payload then none else some empty

abbrev pub number_text : (ℕ → String) → Option ℕ → String
number_text str none = "None"
number_text str (some n) = str n

abbrev pub over_cap : Config → Formatted
over_cap config = message (
    append "Subscription count exceeds the MAX_SUBSCRIPTIONS_PER_CONNECTION limit of " (
      append (number_text config.str config.max_subscriptions)
        ". Complete an existing subscription on this connection or set MAX_SUBSCRIPTIONS_PER_CONNECTION=None to disable the limit."))

-- A task for the operation, in the registry from its start.
abbrev pub register : Key → Json → Members → Consumer → Consumer
register k id payload s = record s {
  operations = put k s.created s.operations;
  tasks =
      set s.created (some (record { key = k; id = id; payload = payload; phase = starting }))
        s.tasks;
  created = suc s.created;
}

-- `_on_subscribe`. An ID that cannot be hashed raises a TypeError, which `receive` closes with 4400.
unfoldable pub on_subscribe : Config → Members → Consumer → Consumer
unfolding close
on_subscribe config content s =
    let id = get "id" content in
    if not s.acked then close 4401 s else if is_null id then close 4400 s else elim (key_of id) [
      | none ↦ close 4400 s
      | some k ↦ (elim (find k s.operations) [
        | some t ↦ close 4409 s
        | none ↦
            if is_full config.max_subscriptions (length s.operations)
            then send_error none id (over_cap config ∷ []) s
            else (elim (payload_of (get "payload" content)) [
              | none ↦
                  send_error none id (message "The subscribe payload must be a JSON object." ∷ []) s
              | some payload ↦ register k id payload s
            ])
      ])
    ]

-- `_on_complete`
unfoldable pub on_complete : (Error → Formatted) → Members → Option Error → Consumer → Consumer
unfolding close cancel_operation
on_complete format content aclose_error s =
    let id = get "id" content in
    if is_null id then s else (elim (key_of id) [
      | none ↦ close 4400 s
      | some k ↦ cancel_operation format k aclose_error s
    ])

pub data MessageType : Type 0 where
  connection_init : MessageType
  ping : MessageType
  pongs : MessageType
  subscribe : MessageType
  completes : MessageType
  unknown : MessageType

abbrev pub type_of_name : String → MessageType
type_of_name name =
    if str_eq name "connection_init"
    then connection_init
    else if str_eq name "ping"
    then ping
    else if str_eq name "pong"
    then pongs
    else if str_eq name "subscribe"
    then subscribe
    else if str_eq name "complete"
    then completes
    else unknown

-- `content.get("type")`
abbrev pub message_type : Json → MessageType
message_type (string name) = type_of_name name
message_type type = unknown

-- The handler of a decoded message.
unfoldable pub dispatch :
    MessageType → Config → (Error → Formatted) → Members → Option Error → Consumer → Consumer
unfolding close on_connection_init on_ping on_subscribe on_complete
dispatch connection_init config format content aclose_error s = on_connection_init config content s
dispatch ping config format content aclose_error s = on_ping content s
dispatch pongs config format content aclose_error s = s
dispatch subscribe config format content aclose_error s = on_subscribe config content s
dispatch completes config format content aclose_error s = on_complete format content aclose_error s
dispatch unknown config format content aclose_error s = close 4400 s

-- `receive_json`
unfoldable pub receive_json :
    Config → (Error → Formatted) → Json → Option Error → Consumer → Consumer
unfolding close dispatch
receive_json config format (object content) aclose_error s =
    if s.closing
    then s
    else dispatch (message_type (get "type" content)) config format content aclose_error s
receive_json config format content aclose_error s = close 4400 s

-- `receive`: none for a frame that cannot be decoded. `aclose_error` is what closing the source
-- raises, where the frame cancels an operation.
unfoldable pub receive :
    Config → (Error → Formatted) → Option Json → Option Error → Consumer → Consumer
unfolding close receive_json
receive config format none aclose_error s = close 4400 s
receive config format (some content) aclose_error s =
    receive_json config format content aclose_error s
