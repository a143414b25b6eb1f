-- ===== src/Socket/Invariant.antt =====
-- Every step of a connection keeps its invariant.
use django_graphex.Common.{
  ℕ, Bool, true, false, not, ◌&&◌, ◌||◌, ◌≡◌, refl, sym, subst, ◌⊎◌, inl, inr, String, Option, none,
  some, List, [], ◌∷◌, length, Bool-cases, Option-cases, if-holds, Option-holds, if◌then◌else◌,
  arith,
}
use django_graphex.Security.Errors.{Formatted, Error}
use django_graphex.Socket.Json.{
  Json, null, boolean, number, string, array, object, get, is_null, key_of, Members, Key, key_eq→≡,
}
use django_graphex.Socket.State.{
  Task, Output, Frame, connection_ack, sends, error, find, erase, finished, Consumer, set,
}
use django_graphex.Socket.Handlers.{
  is_full, begin_authentication, is_begun, payload_of, on_connection_init, on_ping, on_subscribe,
  on_complete, MessageType, connection_init, ping, pongs, subscribe, completes, unknown,
  message_type, dispatch, receive_json, authenticate_connection, receive,
}
use django_graphex.Socket.Teardown.{
  Config, send, close, disconnect, init_watchdog, has_source, cancel_task, cancel_operation,
}
use django_graphex.Socket.Good.{Good-erase, Good-register, Good-tear, Good-ack}
use django_graphex.Socket.Definitions.{holds_id, serves, IsGood}

-- A number that is registered is the number of a running task.
pub serving :
    (k : Key) (v : Option Task)
    → serves k v ≡ true
    → (task : Task) × (v ≡ some task) × (task.key ≡ k) × (holds_id task.phase ≡ true)
serving k none e = absurd (cc e)
serving k (some task) e = (task, refl, ground (arith, key_eq→≡ task.key k), ground arith)

-- At most one frame more, by the task of this number.
pub data Says (t : ℕ) (before after : List Output) : Type 0 where
  nothing : after ≡ before → Says t before after
  one : (frame : Frame) → after ≡ sends (some t) frame ∷ before → Says t before after

-- The shared splits, at the invariant.
pub if-Good :
    (m : Option ℕ) (b : Bool) (x y : Consumer)
    → (b ≡ true → IsGood m x)
    → (b ≡ false → IsGood m y)
    → IsGood m (if b then x else y)
if-Good m = if-holds (IsGood m)

pub elim-Good :
    {A : Type 0} (m : Option ℕ) (o : Option A) (x : Consumer) (f : A → Consumer)
    → (o ≡ none → IsGood m x)
    → ((a : A) → o ≡ some a → IsGood m (f a))
    → IsGood m (elim o [ none ↦ x | some a ↦ f a ])
elim-Good m = Option-holds (IsGood m)

-- Cancelling a task takes it out; at most it sends a frame.
pub cancel_task-cases :
    (format : Error → Formatted) (t : ℕ) (err : Option Error) (s : Consumer) (task : Task)
    → s.tasks t ≡ some task
    → (o : List Output) × Says t s.output o
      × (cancel_task format t err s ≡ record s { tasks = set t none s.tasks; output = o })
cancel_task-cases format t none s task e = (s.output, nothing refl, ground (arith, e))
cancel_task-cases format t (some x) s task e = elim (Bool-cases (has_source task.phase)) [
  | inl f ↦ (
    sends (some t) (error task.id (format x ∷ [])) ∷ s.output,
    one (error task.id (format x ∷ [])) refl,
    ground (arith, e, f),
  )
  | inr f ↦ (s.output, nothing refl, ground (arith, e, f))
]

module _ (m : Option ℕ) (format : Error → Formatted) where
  pub cancel_task-Good :
      (k : Key) (t : ℕ) (err : Option Error) (s : Consumer) (task : Task)
      → s.tasks t ≡ some task
      → IsGood m (record s {
        tasks = set t none s.tasks;
        operations = erase k s.operations;
        sources = erase k s.sources;
      })
      → let s' = cancel_task format t err s in
        IsGood m (record s' { operations = erase k s'.operations; sources = erase k s'.sources })
  cancel_task-Good k t err s task e g =
      let (o, says, c) = cancel_task-cases format t err s task e in
      subst
        (λ (s' : Consumer).
          IsGood m (record s' { operations = erase k s'.operations; sources = erase k s'.sources }))
        (sym c) g

  pub cancel_operation-Good :
      (k : Key) (err : Option Error) (s : Consumer)
      → IsGood m s
      → IsGood m (cancel_operation format k err s)
  unfolding cancel_operation
  cancel_operation-Good k err s g =
      elim-Good m (find k s.operations) s _ (λ e. g)
        (λ t e.
          let (task, f, same, a) = serving k (s.tasks t) ((g.exact k t).1 e) in
          cancel_task-Good k t err s task f
            (rw (sym same) (Good-erase g t task none f a (λ j. refl))))

  -- Cancelling an operation takes out the task that the registry has for it, or changes nothing.
  pub cancel_operation-cases :
      (k : Key) (err : Option Error) (s : Consumer)
      → IsGood m s
      → ((find k s.operations ≡ none) × (cancel_operation format k err s ≡ s))
        ⊎ ((t : ℕ) × (o : List Output) × Says t s.output o
            × (find k s.operations ≡ some t)
            × (cancel_operation format k err s ≡ record s {
              tasks = set t none s.tasks;
              operations = erase k s.operations;
              sources = erase k s.sources;
              output = o;
            }))
  unfolding cancel_operation
  cancel_operation-cases k err s g = elim (Option-cases (find k s.operations)) [
    | inl e ↦ inl (e, ground (arith, e))
    | inr (t, e) ↦
        let (task, f, same, a) = serving k (s.tasks t) ((g.exact k t).1 e) in
        let (o, says, c) = cancel_task-cases format t err s task f in
        inr (t, o, says, e, ground (arith, e, c))
  ]

  pub close-Good : (code : ℕ) (s : Consumer) → IsGood m s → IsGood m (close code s)
  unfolding close
  close-Good code s g = if-Good m s.closing _ _ (λ e. g) (λ e. Good-tear g (some code))

  pub disconnect-Good : (s : Consumer) → IsGood m s → IsGood m (disconnect s)
  unfolding disconnect
  disconnect-Good s g = Good-tear g none

  pub init_watchdog-Good : (s : Consumer) → IsGood m s → IsGood m (init_watchdog s)
  unfolding init_watchdog
  init_watchdog-Good s g =
      if-Good m (s.acked || s.closing) _ _ (λ e. g)
        (λ e. close-Good 4408 (record s { timer = false }) g)

  begin_authentication-Good :
      (payload : Json) (s : Consumer) → IsGood m s → IsGood m (begin_authentication payload s)
  unfolding begin_authentication
  begin_authentication-Good null s g = g
  begin_authentication-Good (object payload) s g = g
  begin_authentication-Good (boolean b) s g = close-Good 4400 s g
  begin_authentication-Good (number n) s g = close-Good 4400 s g
  begin_authentication-Good (string x) s g = close-Good 4400 s g
  begin_authentication-Good (array x) s g = close-Good 4400 s g

  on_connection_init-Good :
      (config : Config) (content : Members) (s : Consumer)
      → s.closing ≡ false
      → IsGood m s
      → IsGood m (on_connection_init config content s)
  unfolding on_connection_init
  on_connection_init-Good config content s c g =
      let begun = begin_authentication (get "payload" content) s in
      let acknowledged = send none connection_ack (record s { acked = true; timer = false }) in
      if-Good m (s.acked || (config.on_connect && is_begun s.init_task)) (close 4429 s)
        (if config.on_connect then begun else acknowledged) (λ e. close-Good 4429 s g)
        (λ e.
          if-Good m config.on_connect begun acknowledged
            (λ f. begin_authentication-Good (get "payload" content) s g) (λ f. Good-ack g c))

  pub authenticate_connection-Good :
      (answer : Option (String × Bool)) (s : Consumer)
      → IsGood m s
      → IsGood m (authenticate_connection answer s)
  unfolding authenticate_connection
  authenticate_connection-Good answer s g =
      let refused = close-Good 4403 (record s { init_task = finished }) g in
      if-Good m s.closing _ _ (λ e. g)
        (λ c.
          elim-Good m answer _ _ (λ e. refused)
            (λ (user, is_authenticated) e.
              if-Good m is_authenticated _ _ (λ f. Good-ack g c) (λ f. refused)))

  on_subscribe-Good :
      (config : Config) (content : Members) (s : Consumer)
      → config.max_subscriptions ≡ m
      → s.closing ≡ false
      → IsGood m s
      → IsGood m (on_subscribe config content s)
  unfolding on_subscribe
  on_subscribe-Good config content s same c g =
      if-Good m (not s.acked) _ _ (λ e. close-Good 4401 s g)
        (λ a.
          if-Good m (is_null (get "id" content)) _ _ (λ e. close-Good 4400 s g)
            (λ n.
              elim-Good m (key_of (get "id" content)) _ _ (λ e. close-Good 4400 s g)
                (λ k e. elim (Option-cases (find k s.operations)) [
                  | inr (t, f) ↦ rw f (close-Good 4409 s g)
                  | inl f ↦ rw f (
                      if-Good m (is_full config.max_subscriptions (length s.operations)) _ _
                        (λ full. g)
                        (λ room.
                          elim-Good m (payload_of (get "payload" content)) _ _ (λ x. g)
                            (λ payload x.
                              Good-register g k (get "id" content) payload (ground (arith, a)) c f
                                (ground (arith, same, room)))))
                ])))

  on_complete-Good :
      (content : Members) (err : Option Error) (s : Consumer)
      → IsGood m s
      → IsGood m (on_complete format content err s)
  unfolding on_complete
  on_complete-Good content err s g =
      if-Good m (is_null (get "id" content)) _ _ (λ e. g)
        (λ e.
          elim-Good m (key_of (get "id" content)) _ _ (λ f. close-Good 4400 s g)
            (λ k f. cancel_operation-Good k err s g))

  dispatch-Good :
      (type : MessageType) (config : Config) (content : Members) (err : Option Error) (s : Consumer)
      → config.max_subscriptions ≡ m
      → s.closing ≡ false
      → IsGood m s
      → IsGood m (dispatch type config format content err s)
  unfolding dispatch on_ping
  dispatch-Good connection_init config content err s same c g =
      on_connection_init-Good config content s c g
  dispatch-Good ping config content err s same c g = g
  dispatch-Good pongs config content err s same c g = g
  dispatch-Good subscribe config content err s same c g =
      on_subscribe-Good config content s same c g
  dispatch-Good completes config content err s same c g = on_complete-Good content err s g
  dispatch-Good unknown config content err s same c g = close-Good 4400 s g

  pub receive-Good :
      (config : Config) (content : Option Json) (err : Option Error) (s : Consumer)
      → config.max_subscriptions ≡ m
      → IsGood m s
      → IsGood m (receive config format content err s)
  unfolding receive receive_json
  receive-Good config none err s same g = close-Good 4400 s g
  receive-Good config (some null) err s same g = close-Good 4400 s g
  receive-Good config (some (boolean b)) err s same g = close-Good 4400 s g
  receive-Good config (some (number n)) err s same g = close-Good 4400 s g
  receive-Good config (some (string x)) err s same g = close-Good 4400 s g
  receive-Good config (some (array x)) err s same g = close-Good 4400 s g
  receive-Good config (some (object content)) err s same g =
      let type = message_type (get "type" content) in
      if-Good m s.closing s (dispatch type config format content err s) (λ e. g)
        (λ c. dispatch-Good type config content err s same c g)
