-- ===== src/Socket/Moves.antt =====
-- The steps of a connection as a relation: each constructor is one kind of change, with what must
-- hold before it.
use django_graphex.Common.{
  ℕ, true, false, not, ◌&&◌, ◌||◌, ◌≡◌, refl, ◌⊎◌, inl, inr, String, Option, none, some, List, [],
  length, Option-cases, if-holds, Option-holds, if◌then◌else◌, arith,
}
use django_graphex.Security.Errors.{Formatted, Error}
use django_graphex.Socket.Json.{
  Json, null, boolean, number, string, array, object, Members, get, is_null, key_of, Key,
}
use django_graphex.Socket.State.{
  Task, Frame, connection_ack, error, Output, Registry, find, erase, keys, InitTask, absent,
  running, finished, Handler, idle, tears, Consumer, set,
}
use django_graphex.Socket.Handlers.{
  connection_init, ping, pongs, subscribe, completes, unknown, MessageType, message_type, is_full,
  payload_of, register, is_begun, begin_authentication, on_connection_init, on_ping, on_subscribe,
  on_complete, dispatch, receive_json, receive,
}
use django_graphex.Socket.Teardown.{Config, send, stop, close, cancel_operation}
use django_graphex.Socket.Steps.{Event, authenticates, is_running, close_with}
use django_graphex.Socket.Definitions.{holds_id, IsGood}
use django_graphex.Socket.Invariant.{Says, cancel_operation-cases}

abbrev pub code_of : Handler → Option ℕ
code_of idle = none
code_of (tears left code) = code

-- A frame is handled only on an accepted connection that does not close.
abbrev pub IsOpen : Consumer → Type 0
IsOpen s = (s.closing ≡ false) × (s.accepted ≡ true)

-- What closes a connection: a frame, the watchdog or the authentication.
abbrev pub CanShut : Consumer → Type 0
CanShut s = (s.accepted || s.timer || is_running s.init_task) ≡ true

pub data Move {S : Type 0} (config : Config) (e : Event S) (s x : Consumer) : Type 0 where
  stays : x ≡ s → Move config e s x
  rests : x ≡ record s { timer = false } → Move config e s x
  shuts :
      (i : InitTask) (code : ℕ)
      → is_running i ≡ false
      → s.closing ≡ false
      → CanShut s
      → x ≡ record s {
        closing = true;
        timer = false;
        init_task = i;
        handler = tears (keys s.operations) (some code);
      }
      → Move config e s x
  leaves :
      (i : InitTask)
      → is_running i ≡ false
      → x ≡ record s {
        closing = true;
        timer = false;
        init_task = i;
        handler = tears (keys s.operations) none;
      }
      → Move config e s x
  acks :
      IsOpen s
      → config.on_connect ≡ false
      → x ≡ send none connection_ack (record s { acked = true; timer = false })
      → Move config e s x
  begins : IsOpen s → x ≡ record s { init_task = running } → Move config e s x
  lapses : x ≡ record s { init_task = finished } → Move config e s x
  admits :
      (user : String)
      → e ≡ authenticates (some (user, true))
      → is_running s.init_task ≡ true
      → s.closing ≡ false
      → x
        ≡ send none connection_ack
            (record s { init_task = finished; user = user; acked = true; timer = false })
      → Move config e s x
  replies : (frame : Frame) → IsOpen s → x ≡ send none frame s → Move config e s x
  registers :
      (k : Key) (id : Json) (payload : Members)
      → IsOpen s
      → s.acked ≡ true
      → find k s.operations ≡ none
      → x ≡ register k id payload s
      → Move config e s x
  cancels :
      (k : Key) (t : ℕ) (h : Handler) (o : List Output)
      → find k s.operations ≡ some t
      → code_of h ≡ code_of s.handler
      → Says t s.output o
      → x ≡ record s {
        tasks = set t none s.tasks;
        operations = erase k s.operations;
        sources = erase k s.sources;
        output = o;
        handler = h;
      }
      → Move config e s x
  turns :
      (h : Handler)
      → code_of h ≡ code_of s.handler
      → x ≡ record s { handler = h }
      → Move config e s x
  sweeps :
      (code : Option ℕ)
      → s.handler ≡ tears [] code
      → x ≡ close_with code (record s { sources = []; handler = idle })
      → Move config e s x
  works :
      (t : ℕ) (task : Task) (v : Option Task) (ops sources : Registry) (o : List Output)
      → s.tasks t ≡ some task
      → holds_id task.phase ≡ true
      → (ops ≡ s.operations) ⊎ (ops ≡ erase task.key s.operations)
      → Says t s.output o
      → x ≡ record s { tasks = set t v s.tasks; operations = ops; sources = sources; output = o }
      → Move config e s x
  speaks :
      (t : ℕ) (task : Task) (frame : Frame)
      → s.tasks t ≡ some task
      → holds_id task.phase ≡ true
      → x ≡ send (some t) frame s
      → Move config e s x
  speaks_late :
      (t : ℕ) (id : Json) (errors : List Formatted)
      → x ≡ send (some t) (error id errors) (record s { tasks = set t none s.tasks })
      → Move config e s x

pub stop-running : (i : InitTask) → is_running (stop i) ≡ false
stop-running absent = refl
stop-running running = refl
stop-running finished = refl

module _ {S : Type 0} (format : Error → Formatted) (config : Config) (e : Event S) where
  cancel_operation-Move :
      (m : Option ℕ) (k : Key) (err : Option Error) (s : Consumer)
      → IsGood m s
      → Move config e s (cancel_operation format k err s)
  cancel_operation-Move m k err s g = elim (cancel_operation-cases m format k err s g) [
    | inl (f, c) ↦ stays c
    | inr (t, o, says, f, c) ↦ cancels k t s.handler o f refl says c
  ]

  shut : (code : ℕ) (s : Consumer) → s.accepted ≡ true → Move config e s (close code s)
  unfolding close
  shut code s a =
      if-holds (Move config e s) s.closing _ _ (λ c. stays refl)
        (λ c. shuts (stop s.init_task) code (stop-running s.init_task) c (rw a refl) refl)

  begin_authentication-Move :
      (payload : Json) (s : Consumer) → IsOpen s → Move config e s (begin_authentication payload s)
  unfolding begin_authentication
  begin_authentication-Move null s o = begins o refl
  begin_authentication-Move (object payload) s o = begins o refl
  begin_authentication-Move (boolean b) s o = shut 4400 s o.1
  begin_authentication-Move (number n) s o = shut 4400 s o.1
  begin_authentication-Move (string x) s o = shut 4400 s o.1
  begin_authentication-Move (array x) s o = shut 4400 s o.1

  on_connection_init-Move :
      (content : Members) (s : Consumer)
      → IsOpen s
      → Move config e s (on_connection_init config content s)
  unfolding on_connection_init
  on_connection_init-Move content s o =
      let begun = begin_authentication (get "payload" content) s in
      let acknowledged = send none connection_ack (record s { acked = true; timer = false }) in
      if-holds (Move config e s) (s.acked || (config.on_connect && is_begun s.init_task))
        (close 4429 s) (if config.on_connect then begun else acknowledged) (λ f. shut 4429 s o.1)
        (λ f.
          if-holds (Move config e s) config.on_connect begun acknowledged
            (λ c. begin_authentication-Move (get "payload" content) s o) (λ c. acks o c refl))

  on_subscribe-Move :
      (content : Members) (s : Consumer)
      → IsOpen s
      → Move config e s (on_subscribe config content s)
  unfolding on_subscribe
  on_subscribe-Move content s o =
      if-holds (Move config e s) (not s.acked) _ _ (λ f. shut 4401 s o.1)
        (λ a.
          if-holds (Move config e s) (is_null (get "id" content)) _ _ (λ f. shut 4400 s o.1)
            (λ n.
              Option-holds (Move config e s) (key_of (get "id" content)) _ _ (λ f. shut 4400 s o.1)
                (λ k f. elim (Option-cases (find k s.operations)) [
                  | inr (t, h) ↦ rw h (shut 4409 s o.1)
                  | inl h ↦ rw h (
                      if-holds (Move config e s)
                        (is_full config.max_subscriptions (length s.operations)) _ _
                        (λ full. replies _ o refl)
                        (λ room.
                          Option-holds (Move config e s) (payload_of (get "payload" content)) _ _
                            (λ x. replies _ o refl)
                            (λ payload x.
                              registers k (get "id" content) payload o (ground (arith, a)) h refl)))
                ])))

  on_complete-Move :
      (m : Option ℕ) (content : Members) (err : Option Error) (s : Consumer)
      → IsOpen s
      → IsGood m s
      → Move config e s (on_complete format content err s)
  unfolding on_complete
  on_complete-Move m content err s o g =
      if-holds (Move config e s) (is_null (get "id" content)) _ _ (λ f. stays refl)
        (λ f.
          Option-holds (Move config e s) (key_of (get "id" content)) _ _ (λ h. shut 4400 s o.1)
            (λ k h. cancel_operation-Move m k err s g))

  dispatch-Move :
      (m : Option ℕ) (type : MessageType) (content : Members) (err : Option Error) (s : Consumer)
      → IsOpen s
      → IsGood m s
      → Move config e s (dispatch type config format content err s)
  unfolding dispatch on_ping
  dispatch-Move m connection_init content err s o g = on_connection_init-Move content s o
  dispatch-Move m ping content err s o g = replies _ o refl
  dispatch-Move m pongs content err s o g = stays refl
  dispatch-Move m subscribe content err s o g = on_subscribe-Move content s o
  dispatch-Move m completes content err s o g = on_complete-Move m content err s o g
  dispatch-Move m unknown content err s o g = shut 4400 s o.1

  pub receive-Move :
      (m : Option ℕ) (content : Option Json) (err : Option Error) (s : Consumer)
      → s.accepted ≡ true
      → IsGood m s
      → Move config e s (receive config format content err s)
  unfolding receive receive_json
  receive-Move m none err s a g = shut 4400 s a
  receive-Move m (some null) err s a g = shut 4400 s a
  receive-Move m (some (boolean b)) err s a g = shut 4400 s a
  receive-Move m (some (number n)) err s a g = shut 4400 s a
  receive-Move m (some (string x)) err s a g = shut 4400 s a
  receive-Move m (some (array x)) err s a g = shut 4400 s a
  receive-Move m (some (object content)) err s a g =
      let type = message_type (get "type" content) in
      if-holds (Move config e s) s.closing s (dispatch type config format content err s)
        (λ c. stays refl) (λ c. dispatch-Move m type content err s (c, a) g)
