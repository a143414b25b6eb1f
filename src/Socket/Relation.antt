-- ===== src/Socket/Relation.antt =====
-- Every step of a connection is one of the moves.
use django_graphex.Common.{
  ℕ, Bool, true, false, ◌&&◌, ◌||◌, ◌≡◌, refl, sym, ap, inl, inr, String, Option, none, some, [],
  ◌∷◌, if-holds, Option-holds, arith,
}
use django_graphex.Security.Errors.{Formatted, Error}
use django_graphex.Socket.State.{
  Phase, starting, delivering, draining, failed, cleanup_failed, Task, find, finished, Handler,
  idle, tears, Consumer,
}
use django_graphex.Socket.Startup.{Raises, Core, Stage, goes, fails, run_operation_start}
use django_graphex.Socket.Handlers.{authenticate_connection}
use django_graphex.Socket.Teardown.{Config, stop, close, disconnect, init_watchdog}
use django_graphex.Socket.Steps.{
  Event, receives, times_out, authenticates, starts, delivers, breaks, ends, raises_late, is_done,
  proceeds, disconnects, ExecutionResult, is_idle, is_running, started, start, deliver, break,
  end_loop, raise_late, finish_failed, of_task, is_task, operation_done, proceed, step,
}
use django_graphex.Socket.Definitions.{IsGood}
use django_graphex.Socket.Invariant.{nothing, one, cancel_operation-cases}
use django_graphex.Socket.Moves.{
  code_of, Move, stays, rests, shuts, leaves, lapses, admits, cancels, turns, sweeps, works, speaks,
  speaks_late, stop-running, receive-Move,
}

module _ {S : Type 0} (format : Error → Formatted) (config : Config) (e : Event S) where
  init_watchdog-Move : (s : Consumer) → s.timer ≡ true → Move config e s (init_watchdog s)
  unfolding init_watchdog close
  init_watchdog-Move s r =
      if-holds (Move config e s) (s.acked || s.closing) _ _ (λ f. rests refl)
        (λ f.
          if-holds (Move config e s) s.closing _ _ (λ c. rests refl)
            (λ c.
              shuts (stop s.init_task) 4408 (stop-running s.init_task) c (ground (arith, r)) refl))

  authenticate_connection-Move :
      (answer : Option (String × Bool)) (s : Consumer)
      → e ≡ authenticates answer
      → is_running s.init_task ≡ true
      → Move config e s (authenticate_connection answer s)
  unfolding authenticate_connection close
  authenticate_connection-Move none s f r =
      if-holds (Move config e s) s.closing _ _ (λ c. lapses refl)
        (λ c.
          if-holds (Move config e s) s.closing _ _ (λ d. lapses refl)
            (λ d. shuts finished 4403 refl c (ground (arith, r)) refl))
  authenticate_connection-Move (some (user, true)) s f r =
      if-holds (Move config e s) s.closing _ _ (λ c. lapses refl) (λ c. admits user f r c refl)
  authenticate_connection-Move (some (user, false)) s f r =
      if-holds (Move config e s) s.closing _ _ (λ c. lapses refl)
        (λ c.
          if-holds (Move config e s) s.closing _ _ (λ d. lapses refl)
            (λ d. shuts finished 4403 refl c (ground (arith, r)) refl))

  deliver-Move :
      (t : ℕ) (result : ExecutionResult) (phase : Phase) (task : Task) (s : Consumer)
      → s.tasks t ≡ some task
      → task.phase ≡ phase
      → Move config e s (deliver format t result phase task s)
  deliver-Move t result starting task s f p = stays refl
  deliver-Move t result delivering task s f p = speaks t task _ f (rw p refl) refl
  deliver-Move t result draining task s f p = stays refl
  deliver-Move t result failed task s f p = stays refl
  deliver-Move t result (cleanup_failed x) task s f p = stays refl

  break-Move :
      (t : ℕ) (exc : Error) (phase : Phase) (task : Task) (s : Consumer)
      → s.tasks t ≡ some task
      → task.phase ≡ phase
      → Move config e s (break format t exc phase task s)
  break-Move t exc starting task s f p = stays refl
  break-Move t exc delivering task s f p =
      works t task _ _ _ _ f (rw p refl) (inl refl) (one _ refl) refl
  break-Move t exc draining task s f p = stays refl
  break-Move t exc failed task s f p = stays refl
  break-Move t exc (cleanup_failed x) task s f p = stays refl

  end_loop-Move :
      (t : ℕ) (err : Option Error) (phase : Phase) (task : Task) (s : Consumer)
      → s.tasks t ≡ some task
      → task.phase ≡ phase
      → Move config e s (end_loop t err phase task s)
  end_loop-Move t err starting task s f p = stays refl
  end_loop-Move t err delivering task s f p =
      works t task _ _ _ _ f (rw p refl) (inr refl) (one _ refl) refl
  end_loop-Move t err draining task s f p =
      works t task _ _ _ _ f (rw p refl) (inr refl) (one _ refl) refl
  end_loop-Move t err failed task s f p = stays refl
  end_loop-Move t err (cleanup_failed x) task s f p = stays refl

  raise_late-Move :
      (t : ℕ) (phase : Phase) (task : Task) (s : Consumer)
      → Move config e s (raise_late format t phase task s)
  raise_late-Move t starting task s = stays refl
  raise_late-Move t delivering task s = stays refl
  raise_late-Move t draining task s = stays refl
  raise_late-Move t failed task s = stays refl
  raise_late-Move t (cleanup_failed x) task s = speaks_late t task.id _ refl

  finish_failed-Move :
      (t : ℕ) (phase : Phase) (task : Task) (s : Consumer)
      → s.tasks t ≡ some task
      → task.phase ≡ phase
      → Move config e s (finish_failed t phase task s)
  unfolding finish_failed operation_done
  finish_failed-Move t starting task s f p = stays refl
  finish_failed-Move t delivering task s f p = stays refl
  finish_failed-Move t draining task s f p = stays refl
  finish_failed-Move t failed task s f p =
      if-holds (Move config e s) (is_task t (find task.key s.operations)) _ _
        (λ r. works t task none _ _ _ f (rw p refl) (inr refl) (nothing refl) refl)
        (λ r. works t task none _ _ _ f (rw p refl) (inl refl) (nothing refl) refl)
  finish_failed-Move t (cleanup_failed x) task s f p = stays refl

  proceed-Move :
      (m : Option ℕ) (err : Option Error) (handler : Handler) (s : Consumer)
      → s.handler ≡ handler
      → IsGood m s
      → Move config e s (proceed format err handler s)
  unfolding proceed
  proceed-Move m err idle s h g = stays refl
  proceed-Move m err (tears (k ∷ left) code) s h g =
      elim (cancel_operation-cases m format k err s g) [
        | inl (f, c) ↦
            turns (tears left code) (ap code_of (sym h))
              (ap (λ (x : Consumer). record x { handler = tears left code }) c)
        | inr (t, o, says, f, c) ↦
            cancels k t (tears left code) o f (ap code_of (sym h)) says
              (ap (λ (x : Consumer). record x { handler = tears left code }) c)
      ]
  proceed-Move m err (tears [] code) s h g = sweeps code h refl

module _ {D S X : Type 0} (core : Core D S X) (format : Error → Formatted) (config : Config) where
  started-Move :
      (e : Event S) (t : ℕ) (task : Task) (stage : Stage (Unit {0})) (s : Consumer)
      → s.tasks t ≡ some task
      → task.phase ≡ starting
      → Move config e s (started core format t task stage s)
  started-Move e t task (goes done) s f p =
      works t task _ _ _ _ f (rw p refl) (inl refl) (nothing refl) refl
  started-Move e t task (fails errors) s f p =
      works t task _ _ _ _ f (rw p refl) (inl refl) (one _ refl) refl

  start-Move :
      (e : Event S) (t : ℕ) (schema : Raises S) (phase : Phase) (task : Task) (s : Consumer)
      → s.tasks t ≡ some task
      → task.phase ≡ phase
      → Move config e s (start core format t schema phase task s)
  unfolding start
  start-Move e t schema starting task s f p =
      started-Move e t task (run_operation_start core format schema task.payload) s f p
  start-Move e t schema delivering task s f p = stays refl
  start-Move e t schema draining task s f p = stays refl
  start-Move e t schema failed task s f p = stays refl
  start-Move e t schema (cleanup_failed x) task s f p = stays refl

  of_task-Move :
      (e : Event S) (t : ℕ) (piece : Phase → Task → Consumer → Consumer) (s : Consumer)
      → ((task : Task) → s.tasks t ≡ some task → Move config e s (piece task.phase task s))
      → Move config e s (of_task t piece s)
  of_task-Move e t piece s h =
      Option-holds (Move config e s) (s.tasks t) s (λ (task : Task). piece task.phase task s)
        (λ f. stays refl) h

  pub step-Move :
      (m : Option ℕ) (e : Event S) (s : Consumer)
      → IsGood m s
      → Move config e s (step core format config e s)
  unfolding step disconnect
  step-Move m (receives content err) s g =
      if-holds (Move config (receives content err) s) (s.accepted && is_idle s.handler) _ s
        (λ f. receive-Move format config (receives content err) m content err s (ground arith) g)
        (λ f. stays refl)
  step-Move m times_out s g =
      if-holds (Move config times_out s) s.timer _ s
        (λ f. init_watchdog-Move format config times_out s f) (λ f. stays refl)
  step-Move m (authenticates answer) s g =
      if-holds (Move config (authenticates answer) s) (is_running s.init_task) _ s
        (λ f. authenticate_connection-Move format config (authenticates answer) answer s refl f)
        (λ f. stays refl)
  step-Move m (starts t schema) s g =
      of_task-Move _ t (start core format t schema) s
        (λ task f. start-Move _ t schema task.phase task s f refl)
  step-Move m (delivers t result) s g =
      of_task-Move _ t (deliver format t result) s
        (λ task f. deliver-Move format config _ t result task.phase task s f refl)
  step-Move m (breaks t exc) s g =
      of_task-Move _ t (break format t exc) s
        (λ task f. break-Move format config _ t exc task.phase task s f refl)
  step-Move m (ends t err) s g =
      of_task-Move _ t (end_loop t err) s
        (λ task f. end_loop-Move format config _ t err task.phase task s f refl)
  step-Move m (raises_late t) s g =
      of_task-Move _ t (raise_late format t) s
        (λ task f. raise_late-Move format config _ t task.phase task s)
  step-Move m (is_done t) s g =
      of_task-Move _ t (finish_failed t) s
        (λ task f. finish_failed-Move format config _ t task.phase task s f refl)
  step-Move m (proceeds err) s g = proceed-Move format config _ m err s.handler s refl g
  step-Move m disconnects s g =
      if-holds (Move config disconnects s) (s.accepted && is_idle s.handler) _ s
        (λ f. leaves (stop s.init_task) (stop-running s.init_task) refl) (λ f. stays refl)
