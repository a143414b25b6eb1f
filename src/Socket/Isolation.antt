-- ===== src/Socket/Isolation.antt =====
-- What a client's `complete` touches: its own operation, and nothing of the others.
use django_graphex.Common.{ℕ, true, false, ◌≡◌, none, some}
use django_graphex.Socket.Json.{Key, key_eq}
use django_graphex.Socket.State.{Task, find, Consumer}
use django_graphex.Socket.Definitions.{holds_id}

-- The state `x` after the operation of `k` is gone from `s`: every other operation, source and
-- running task is as it was, and the connection stays open.
abbrev pub OnlyLost : Key → Consumer → Consumer → Type 0
OnlyLost k s x =
    (find k x.operations ≡ none)
    × (x.closing ≡ s.closing)
    × (x.acked ≡ s.acked)
    × ((j : Key)
        → key_eq k j ≡ false
        → (find j x.operations ≡ find j s.operations) × (find j x.sources ≡ find j s.sources))
    × ((t : ℕ) (task : Task)
        → s.tasks t ≡ some task
        → holds_id task.phase ≡ true
        → key_eq k task.key ≡ false
        → x.tasks t ≡ some task)
