-- ===== src/Socket/Runs.antt =====
-- Every run of a connection keeps its invariant.
use django_graphex.Common.{
  ℕ, ◌&&◌, ◌≡◌, refl, String, Option, none, some, List, [], ◌∷◌, contains, arith,
}
use django_graphex.Security.Errors.{Formatted, Error}
use django_graphex.Socket.State.{
  Phase, starting, delivering, draining, failed, cleanup_failed, Task, Consumer, fresh,
}
use django_graphex.Socket.Startup.{Raises, Core, Stage, goes, fails, run_operation_start}
use django_graphex.Socket.Handlers.{receive, authenticate_connection}
use django_graphex.Socket.Teardown.{Config, connect, disconnect, init_watchdog}
use django_graphex.Socket.Steps.{
  Event, receives, times_out, authenticates, starts, delivers, breaks, ends, raises_late, is_done,
  proceeds, disconnects, start, deliver, break, end_loop, raise_late, finish_failed, of_task,
  is_idle, started, in_phase, is_running, step, run, connection,
}
use django_graphex.Socket.Good.{Good-set, Good-source}
use django_graphex.Socket.Definitions.{Fits, IsGood}
use django_graphex.Socket.Tasks.{
  deliver-Good, break-Good, end_loop-Good, raise_late-Good, finish_failed-Good, proceed-Good,
}
use django_graphex.Socket.Invariant.{
  if-Good, elim-Good, disconnect-Good, init_watchdog-Good, authenticate_connection-Good,
  receive-Good,
}

Fits-zero : (m : Option ℕ) → Fits m 0
Fits-zero none = tt
Fits-zero (some m) = omega arith

module _ {D S X : Type 0} (core : Core D S X) (format : Error → Formatted) (config : Config)
    (m : Option ℕ) (same : config.max_subscriptions ≡ m) where
  started-Good :
      (t : ℕ) (task : Task) (stage : Stage (Unit {0})) (s : Consumer)
      → s.tasks t ≡ some task
      → task.phase ≡ starting
      → IsGood m s
      → IsGood m (started core format t task stage s)
  started-Good t task (goes done) s e p g =
      Good-source g t task (record task { phase = delivering }) e p refl refl
  started-Good t task (fails errors) s e p g =
      Good-set g t task (in_phase failed task) e (λ j. rw p refl) (λ j. rw p refl)

  start-Good :
      (t : ℕ) (schema : Raises S) (phase : Phase) (task : Task) (s : Consumer)
      → s.tasks t ≡ some task
      → task.phase ≡ phase
      → IsGood m s
      → IsGood m (start core format t schema phase task s)
  unfolding start
  start-Good t schema starting task s e p g =
      started-Good t task (run_operation_start core format schema task.payload) s e p g
  start-Good t schema delivering task s e p g = g
  start-Good t schema draining task s e p g = g
  start-Good t schema failed task s e p g = g
  start-Good t schema (cleanup_failed x) task s e p g = g

  of_task-Good :
      (t : ℕ) (piece : Phase → Task → Consumer → Consumer) (s : Consumer)
      → IsGood m s
      → ((task : Task) → s.tasks t ≡ some task → IsGood m (piece task.phase task s))
      → IsGood m (of_task t piece s)
  of_task-Good t piece s g h =
      elim-Good m (s.tasks t) s (λ (task : Task). piece task.phase task s) (λ e. g) h

  pub step-Good : (e : Event S) (s : Consumer) → IsGood m s → IsGood m (step core format config e s)
  unfolding step
  step-Good (receives content err) s g =
      if-Good m (s.accepted && is_idle s.handler) (receive config format content err s) s
        (λ f. receive-Good m format config content err s same g) (λ f. g)
  step-Good times_out s g =
      if-Good m s.timer (init_watchdog s) s (λ f. init_watchdog-Good m format s g) (λ f. g)
  step-Good (authenticates answer) s g =
      if-Good m (is_running s.init_task) (authenticate_connection answer s) s
        (λ f. authenticate_connection-Good m format answer s g) (λ f. g)
  step-Good (starts t schema) s g =
      of_task-Good t (start core format t schema) s g
        (λ task e. start-Good t schema task.phase task s e refl g)
  step-Good (delivers t result) s g =
      of_task-Good t (deliver format t result) s g
        (λ task e. deliver-Good format m t result task.phase task s g)
  step-Good (breaks t exc) s g =
      of_task-Good t (break format t exc) s g
        (λ task e. break-Good format m t exc task.phase task s e refl g)
  step-Good (ends t err) s g =
      of_task-Good t (end_loop t err) s g
        (λ task e. end_loop-Good format m t err task.phase task s e refl g)
  step-Good (raises_late t) s g =
      of_task-Good t (raise_late format t) s g
        (λ task e. raise_late-Good format m t task.phase task s e refl g)
  step-Good (is_done t) s g =
      of_task-Good t (finish_failed t) s g
        (λ task e. finish_failed-Good format m t task.phase task s e refl g)
  step-Good (proceeds err) s g = proceed-Good format m err s.handler s refl g
  step-Good disconnects s g =
      if-Good m (s.accepted && is_idle s.handler) (disconnect s) s
        (λ f. disconnect-Good m format s g) (λ f. g)

  pub run-Good :
      (events : List (Event S)) (s : Consumer)
      → IsGood m s
      → IsGood m (run core format config events s)
  unfolding run
  run-Good [] s g = g
  run-Good (e ∷ events) s g = run-Good events (step core format config e s) (step-Good e s g)

  pub fresh-Good : (user : String) → IsGood m (fresh user)
  fresh-Good user = record {
    unacked = λ e. refl;
    at_rest = λ e. refl;
    exact = λ k t. (λ e. absurd (cc e), λ e. absurd (cc e));
    sourced = λ k t. (λ e. absurd (cc e), λ e. absurd (cc e));
    below = λ t le. refl;
    bound = Fits-zero m;
    torn = λ c k t e. absurd (cc e);
  }

  pub connection-Good :
      (user : String) (subprotocols : List String) (events : List (Event S))
      → IsGood m (connection core format config user subprotocols events)
  unfolding connection connect
  connection-Good user subprotocols events = run-Good events (connect subprotocols (fresh user)) (
      if-Good m (contains "graphql-transport-ws" subprotocols) _ _ (λ e. fresh-Good user)
        (λ e. fresh-Good user))
