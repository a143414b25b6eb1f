-- ===== src/Socket/Teardown.antt =====
-- The opening and the close of the socket, and the teardown of its operations. A handler runs up to
-- its next wait as one piece.
use django_graphex.Common.{
  ℕ, Bool, true, false, ◌||◌, String, Option, none, some, List, [], ◌∷◌, contains, if◌then◌else◌,
}
use django_graphex.Security.Errors.{Formatted, Error}
use django_graphex.Socket.Json.{Json, Key}
use django_graphex.Socket.State.{
  Phase, delivering, draining, Frame, error, accepts, sends, closes, find, erase, keys, InitTask,
  absent, running, finished, tears, Consumer, set,
}

-- Whether `on_connect` is given, the setting `MAX_SUBSCRIPTIONS_PER_CONNECTION`, and how Python
-- prints a number.
pub record Config : Type 0 where
  pub on_connect : Bool
  pub max_subscriptions : Option ℕ
  pub str : ℕ → String

abbrev pub send : Option ℕ → Frame → Consumer → Consumer
send by frame s = record s { output = sends by frame ∷ s.output }

-- `_send_error`
abbrev pub send_error : Option ℕ → Json → List Formatted → Consumer → Consumer
send_error by id errors = send by (error id errors)

-- `task.cancel()`, of the authentication task
abbrev pub stop : InitTask → InitTask
stop absent = absent
stop running = finished
stop finished = finished

-- `connect`, where the client offers `subprotocols`
unfoldable pub connect : List String → Consumer → Consumer
connect subprotocols s =
    if contains "graphql-transport-ws" subprotocols
    then record s { accepted = true; timer = true; output = accepts ∷ s.output }
    else record s { output = closes 4406 ∷ s.output }

-- `_close`, up to its first wait: the operations that it tears down are those of this moment.
unfoldable pub close : ℕ → Consumer → Consumer
close code s = if s.closing then s else record s {
  closing = true;
  timer = false;
  init_task = stop s.init_task;
  handler = tears (keys s.operations) (some code);
}

-- `disconnect`, up to its first wait
unfoldable pub disconnect : Consumer → Consumer
disconnect s = record s {
  closing = true;
  timer = false;
  init_task = stop s.init_task;
  handler = tears (keys s.operations) none;
}

-- `_init_watchdog`, when its sleep is over
unfoldable pub init_watchdog : Consumer → Consumer
unfolding close
init_watchdog s =
    let s' = record s { timer = false } in if s.acked || s.closing then s' else close 4408 s'

-- A task that is in its loop over the source closes the source when it ends.
abbrev pub has_source : Phase → Bool
has_source delivering = true
has_source draining = true
has_source _ = false

-- A cancelled task runs its `finally`. A failure of `aclose` takes the place of the cancellation,
-- and the wrapper frames it.
abbrev pub cancel_task : (Error → Formatted) → ℕ → Option Error → Consumer → Consumer
cancel_task format t aclose_error s = elim (s.tasks t) [
  | none ↦ s
  | some task ↦
      let s' = record s { tasks = set t none s.tasks } in
      elim aclose_error [
        | none ↦ s'
        | some e ↦
            if has_source task.phase then send_error (some t) task.id (format e ∷ []) s' else s'
      ]
]

-- `_cancel_operation`. While it waits for the task, the steps of other tasks change nothing that
-- it reads or writes.
unfoldable pub cancel_operation : (Error → Formatted) → Key → Option Error → Consumer → Consumer
cancel_operation format k aclose_error s = elim (find k s.operations) [
  | none ↦ s
  | some t ↦
      let s' = cancel_task format t aclose_error s in
      record s' { operations = erase k s'.operations; sources = erase k s'.sources }
]
