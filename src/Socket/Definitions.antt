-- ===== src/Socket/Definitions.antt =====
-- The invariant of a connection.
use django_graphex.Common.{
  ℕ, ◌≤◌, Bool, true, false, ◌&&◌, ◌||◌, ◌≡◌, Option, none, some, List, [], ◌∷◌, length,
}
use django_graphex.Socket.Json.{Key, key_eq}
use django_graphex.Socket.State.{
  Phase, cleanup_failed, Task, Registry, find, Handler, idle, tears, Consumer,
}
use django_graphex.Socket.Teardown.{has_source}
use django_graphex.Socket.Registry.{Agrees}

-- A task holds its ID up to its `complete` frame, or to the end of its `error` frame's callback. It
-- may run on without it: a failed cleanup is raised behind the `complete` frame.
abbrev pub holds_id : Phase → Bool
holds_id (cleanup_failed e) = false
holds_id _ = true

abbrev pub serves : Key → Option Task → Bool
serves k none = false
serves k (some task) = key_eq task.key k && holds_id task.phase

abbrev pub feeds : Key → Option Task → Bool
feeds k none = false
feeds k (some task) = key_eq task.key k && has_source task.phase

abbrev pub listed : Key → List Key → Bool
listed k [] = false
listed k (j ∷ ks) = key_eq j k || listed k ks

abbrev pub pending : Key → Handler → Bool
pending k idle = false
pending k (tears left code) = listed k left

-- No more operations than the setting allows.
abbrev pub Fits : Option ℕ → ℕ → Type 0
Fits none count = Unit
Fits (some max_subscriptions) count = count ≤ max_subscriptions

pub record Good (max_subscriptions : Option ℕ) (acked closing : Bool) (handler : Handler)
    (operations sources : Registry) (tasks : ℕ → Option Task) (created : ℕ) : Type 0 where
  -- no operation before the acknowledgement
  pub unacked : acked ≡ false → operations ≡ []
  -- a teardown only while closing
  pub at_rest : closing ≡ false → handler ≡ idle
  -- the registry lists the tasks that hold an ID
  pub exact : Agrees serves operations tasks
  -- the sources are those of the tasks in their loops
  pub sourced : Agrees feeds sources tasks
  pub below : (t : ℕ) → created ≤ t → tasks t ≡ none
  pub bound : Fits max_subscriptions (length operations)
  -- while closing, what is registered is still to be torn down
  pub torn :
      closing ≡ true → (k : Key) (t : ℕ) → find k operations ≡ some t → pending k handler ≡ true

abbrev pub IsGood : Option ℕ → Consumer → Type 0
IsGood m s = Good m s.acked s.closing s.handler s.operations s.sources s.tasks s.created
