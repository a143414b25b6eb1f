-- ===== src/Leases/Scripts.antt =====
-- The scripts that Redis runs, each atomic, and histories of them.
use django_graphex.Common.{
  ℕ, ◌+◌, ◌*◌, String, Bool, true, false, Option, none, some, List, [], ◌∷◌, leb, if◌then◌else◌,
}
use django_graphex.Leases.Redis.{Redis, now_ms}

-- `_TTL_MS`
abbrev pub ttl_ms : ℕ
ttl_ms = 45000

module _ {S : Type 0} (redis : Redis S) where
  -- `_ACQUIRE`: true is the script's 1.
  unfoldable pub acquire : String → ℕ → ℕ → S → Bool × S
  acquire token limit ttl s =
      let now = now_ms redis s in
      let s' = redis.zremrangebyscore now s in
      if leb limit (redis.zcard s')
      then (false, s')
      else (true, redis.pexpire (ttl * 2) (redis.zadd (now + ttl) token s'))

  extend : String → ℕ → S → Option ℕ → Bool × S
  extend token ttl s none = (false, s)
  extend token ttl s (some expiry) =
      let now = now_ms redis s in
      if leb expiry now
      then (false, s)
      else (true, redis.pexpire (ttl * 2) (redis.zadd (now + ttl) token s))

  -- `_RENEW`
  unfoldable pub renew : String → ℕ → S → Bool × S
  unfolding extend
  renew token ttl s = extend token ttl s (redis.zscore token s)

  -- `_RELEASE`
  unfoldable pub release : String → S → Bool × S
  release token s = redis.zrem token s

-- What the streams of an account, in whatever processes, do at the server, in its order.
pub data Event : Type 0 where
  acquires : String → Event
  renews : String → Event
  releases : String → Event
  elapses : ℕ → Event

module _ {S : Type 0} (redis : Redis S) (limit : ℕ) where
  unfoldable pub serve : Event → S → S
  serve (acquires token) s = (acquire redis token limit ttl_ms s).1
  serve (renews token) s = (renew redis token ttl_ms s).1
  serve (releases token) s = (release redis token s).1
  serve (elapses d) s = redis.elapse d s

  unfoldable pub serve_all : List Event → S → S
  serve_all [] s = s
  serve_all (event ∷ events) s = serve_all events (serve event s)
