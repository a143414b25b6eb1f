-- ===== src/Socket/State.antt =====
-- The state of a connection: its flags, its tasks, and the two dictionaries of operations and
-- sources.
use django_graphex.Common.{
  ℕ, Bool, false, String, Option, none, some, List, [], ◌∷◌, ◌==◌, if◌then◌else◌,
}
use django_graphex.Security.Errors.{Formatted, Error}
use django_graphex.Socket.Json.{Json, Members, Key, key_eq}

-- Where the task of an operation stands: before its source is started; in its loop over the
-- source; behind a failure of that loop; behind its `error` frame, with its done callback still to
-- run; behind its `complete` frame, with a failure of its cleanup still to raise.
pub data Phase : Type 0 where
  starting : Phase
  delivering : Phase
  draining : Phase
  failed : Phase
  cleanup_failed : Error → Phase

pub record Task : Type 0 where
  pub key : Key
  pub id : Json
  pub payload : Members
  pub phase : Phase

pub data Frame : Type 0 where
  connection_ack : Frame
  pong : Json → Frame
  next : Json → Option Json → Option (List Formatted) → Frame
  error : Json → List Formatted → Frame
  complete : Json → Frame

-- What the socket is told. A frame that a task sends carries the task's number.
pub data Output : Type 0 where
  accepts : Output
  sends : Option ℕ → Frame → Output
  closes : ℕ → Output

-- A dictionary by operation ID; its values are the numbers of tasks.
abbrev pub Registry : Type 0
Registry = List (Key × ℕ)

abbrev pub find : Key → Registry → Option ℕ
find k [] = none
find k ((j, t) ∷ d) = if key_eq j k then some t else find k d

abbrev pub put : Key → ℕ → Registry → Registry
put k t [] = (k, t) ∷ []
put k t ((j, u) ∷ d) = if key_eq j k then (j, t) ∷ d else (j, u) ∷ put k t d

-- `pop(k, None)`
abbrev pub erase : Key → Registry → Registry
erase k [] = []
erase k ((j, t) ∷ d) = if key_eq j k then erase k d else (j, t) ∷ erase k d

abbrev pub keys : Registry → List Key
keys [] = []
keys ((j, t) ∷ d) = j ∷ keys d

pub data InitTask : Type 0 where
  absent : InitTask
  running : InitTask
  finished : InitTask

-- What the connection's own handler waits for: nothing, or the teardown of the operations still
-- listed, with the code to close with, which a disconnect has not.
pub data Handler : Type 0 where
  idle : Handler
  tears : List Key → Option ℕ → Handler

-- The consumer. The task of number n was the n-th to be created. `output` has the newest first.
pub record Consumer : Type 0 where
  pub acked : Bool
  pub closing : Bool
  pub accepted : Bool
  pub timer : Bool
  pub init_task : InitTask
  pub user : String
  pub operations : Registry
  pub sources : Registry
  pub tasks : ℕ → Option Task
  pub created : ℕ
  pub handler : Handler
  pub output : List Output

abbrev pub set : ℕ → Option Task → (ℕ → Option Task) → ℕ → Option Task
set t task tasks n = if n == t then task else tasks n

-- A consumer before `connect`, for a scope's user.
abbrev pub fresh : String → Consumer
fresh user = record {
  acked = false;
  closing = false;
  accepted = false;
  timer = false;
  init_task = absent;
  user = user;
  operations = [];
  sources = [];
  tasks = λ n. none;
  created = 0;
  handler = idle;
  output = [];
}
