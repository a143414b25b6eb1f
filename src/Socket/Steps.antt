-- ===== src/Socket/Steps.antt =====
-- The steps of a connection: its handlers, its timers, and the tasks of its operations, in any
-- order. An event that cannot happen in a state leaves it as it is.
use django_graphex.Common.{
  ℕ, Bool, true, false, ◌&&◌, String, Option, none, some, List, [], ◌∷◌, map, ◌==◌, if◌then◌else◌,
}
use django_graphex.Security.Errors.{Formatted, Error, as_graphql_error}
use django_graphex.Socket.Json.{Json, Key}
use django_graphex.Socket.State.{
  Phase, starting, delivering, draining, failed, cleanup_failed, Task, Handler, InitTask, Frame,
  next, complete, closes, running, find, put, erase, idle, tears, Consumer, set, fresh,
}
use django_graphex.Socket.Startup.{Raises, Core, Stage, goes, fails, run_operation_start}
use django_graphex.Socket.Handlers.{authenticate_connection, receive}
use django_graphex.Socket.Teardown.{
  Config, send, send_error, connect, disconnect, init_watchdog, cancel_operation,
}

-- What graphql-core's execution gives for an event of the source.
pub record ExecutionResult : Type 0 where
  pub value : Option Json
  pub errors : List Error

-- The server accepts no frame before `accept`, and hands over a frame or the disconnect only when
-- the handler before it has returned. `proceeds` is the teardown's next piece.
pub data Event (S : Type 0) : Type 0 where
  receives : (content : Option Json) (aclose_error : Option Error) → Event S
  times_out : Event S
  authenticates : (answer : Option (String × Bool)) → Event S
  starts : (task : ℕ) (schema : Raises S) → Event S
  delivers : (task : ℕ) (result : ExecutionResult) → Event S
  breaks : (task : ℕ) (exc : Error) → Event S
  ends : (task : ℕ) (close_error : Option Error) → Event S
  raises_late : (task : ℕ) → Event S
  is_done : (task : ℕ) → Event S
  proceeds : (aclose_error : Option Error) → Event S
  disconnects : Event S

-- The value of a task in its phase.
abbrev pub in_phase : Phase → Task → Option Task
in_phase phase task = some (record task { phase = phase })

-- `_send_next`
abbrev pub next_frame : (Error → Formatted) → Json → ExecutionResult → Frame
next_frame format id result =
    next id result.value
      (elim result.errors [ [] ↦ none | e ∷ errors ↦ some (map format (e ∷ errors)) ])

-- The task's loop has ended and its source is closed: the operation leaves the registry before the
-- client is told.
abbrev pub finish : ℕ → Task → Option Error → Consumer → Consumer
finish t task close_error s = send (some t) (complete task.id) (record s {
  sources = erase task.key s.sources;
  operations = erase task.key s.operations;
  tasks =
      set t (elim close_error [ none ↦ none | some e ↦ in_phase (cleanup_failed e) task ]) s.tasks;
})

abbrev pub is_task : ℕ → Option ℕ → Bool
is_task t none = false
is_task t (some u) = u == t

-- `_operation_done`: a newer task that uses the ID is left alone.
unfoldable pub operation_done : ℕ → Key → Consumer → Consumer
operation_done t k s =
    let s' = record s { tasks = set t none s.tasks } in
    if is_task t (find k s.operations) then record s' { operations = erase k s.operations } else s'

-- The pieces of `_run_operation` behind its start, in `_run_operation_framed`, by the task's phase.
abbrev pub deliver : (Error → Formatted) → ℕ → ExecutionResult → Phase → Task → Consumer → Consumer
deliver format t result delivering task s = send (some t) (next_frame format task.id result) s
deliver format t result phase task s = s

abbrev pub break : (Error → Formatted) → ℕ → Error → Phase → Task → Consumer → Consumer
break format t exc delivering task s =
    let result : ExecutionResult = record { value = none; errors = as_graphql_error exc ∷ [] } in
    send (some t) (next_frame format task.id result)
      (record s { tasks = set t (in_phase draining task) s.tasks })
break format t exc phase task s = s

abbrev pub end_loop : ℕ → Option Error → Phase → Task → Consumer → Consumer
end_loop t close_error delivering task s = finish t task close_error s
end_loop t close_error draining task s = finish t task close_error s
end_loop t close_error phase task s = s

abbrev pub raise_late : (Error → Formatted) → ℕ → Phase → Task → Consumer → Consumer
raise_late format t (cleanup_failed e) task s =
    send_error (some t) task.id (format e ∷ []) (record s { tasks = set t none s.tasks })
raise_late format t phase task s = s

unfoldable pub finish_failed : ℕ → Phase → Task → Consumer → Consumer
unfolding operation_done
finish_failed t failed task s = operation_done t task.key s
finish_failed t phase task s = s

abbrev pub of_task : ℕ → (Phase → Task → Consumer → Consumer) → Consumer → Consumer
of_task t piece s = elim (s.tasks t) [ none ↦ s | some task ↦ piece task.phase task s ]

abbrev pub is_idle : Handler → Bool
is_idle idle = true
is_idle (tears left code) = false

abbrev pub is_running : InitTask → Bool
is_running running = true
is_running other = false

abbrev pub close_with : Option ℕ → Consumer → Consumer
close_with none s = s
close_with (some code) s = record s { output = closes code ∷ s.output }

-- The teardown of `_close` and of `disconnect`: each listed operation, then the sources that are
-- left, then the socket.
unfoldable pub proceed : (Error → Formatted) → Option Error → Handler → Consumer → Consumer
unfolding cancel_operation
proceed format aclose_error idle s = s
proceed format aclose_error (tears (k ∷ left) code) s =
    record (cancel_operation format k aclose_error s) { handler = tears left code }
proceed format aclose_error (tears [] code) s =
    close_with code (record s { sources = []; handler = idle })

module _ {D S X : Type 0} (core : Core D S X) (format : Error → Formatted) where
  abbrev pub started : ℕ → Task → Stage (Unit {0}) → Consumer → Consumer
  started t task (goes done) s = record s {
    sources = put task.key t s.sources;
    tasks = set t (in_phase delivering task) s.tasks;
  }
  started t task (fails errors) s =
      send_error (some t) task.id errors (record s { tasks = set t (in_phase failed task) s.tasks })

  unfoldable pub start : ℕ → Raises S → Phase → Task → Consumer → Consumer
  unfolding run_operation_start
  start t schema starting task s =
      started t task (run_operation_start core format schema task.payload) s
  start t schema phase task s = s

module _ {D S X : Type 0} (core : Core D S X) (format : Error → Formatted) (config : Config) where
  unfoldable pub step : Event S → Consumer → Consumer
  unfolding receive init_watchdog authenticate_connection proceed disconnect start finish_failed
  step (receives content aclose_error) s =
      if s.accepted && is_idle s.handler then receive config format content aclose_error s else s
  step times_out s = if s.timer then init_watchdog s else s
  step (authenticates answer) s =
      if is_running s.init_task then authenticate_connection answer s else s
  step (starts t schema) s = of_task t (start core format t schema) s
  step (delivers t result) s = of_task t (deliver format t result) s
  step (breaks t exc) s = of_task t (break format t exc) s
  step (ends t close_error) s = of_task t (end_loop t close_error) s
  step (raises_late t) s = of_task t (raise_late format t) s
  step (is_done t) s = of_task t (finish_failed t) s
  step (proceeds aclose_error) s = proceed format aclose_error s.handler s
  step disconnects s = if s.accepted && is_idle s.handler then disconnect s else s

  -- The connection after a list of events, the first one first.
  unfoldable pub run : List (Event S) → Consumer → Consumer
  unfolding step
  run [] s = s
  run (e ∷ events) s = run events (step e s)

  -- A connection from `connect` on.
  unfoldable pub connection : String → List String → List (Event S) → Consumer
  unfolding run connect
  connection user subprotocols events = run events (connect subprotocols (fresh user))
