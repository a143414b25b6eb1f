-- ===== src/Leases/Redis.antt =====
-- The sorted set of one account in Redis, which is not part of the repository: the commands that
-- the scripts call, and their documented behaviour.
use django_graphex.Common.{
  ℕ, ◌+◌, ◌*◌, ◌/◌, ◌≡◌, String, Bool, Option, none, some, List, [], ◌∷◌, lookup, length, ltb, leb,
  str_eq, if◌then◌else◌,
}

-- The commands, at the account's key. `elapse` is the passing of milliseconds between commands.
pub record Redis (S : Type 0) : Type 0 where
  pub time : S → ℕ × ℕ
  pub zremrangebyscore : ℕ → S → S
  pub zcard : S → ℕ
  pub zadd : ℕ → String → S → S
  pub zscore : String → S → Option ℕ
  pub pexpire : ℕ → S → S
  pub zrem : String → S → Bool × S
  pub elapse : ℕ → S → S

-- `time[1] * 1000 + math.floor(time[2] / 1000)`, of the server's seconds and microseconds.
unfoldable pub now_ms : {S : Type 0} → Redis S → S → ℕ
now_ms redis s = let (seconds, micros) = redis.time s in seconds * 1000 + micros / 1000

abbrev pub Members : Type 0
Members = List (String × ℕ)

-- The members with a score above `bound`.
abbrev pub above : ℕ → Members → Members
above bound [] = []
above bound ((token, score) ∷ members) =
    let rest = above bound members in if ltb bound score then (token, score) ∷ rest else rest

abbrev pub erase : String → Members → Members
erase token [] = []
erase token ((t, score) ∷ members) =
    let rest = erase token members in if str_eq t token then rest else (t, score) ∷ rest

-- Whether a key with this deadline is gone.
abbrev pub is_gone : Option ℕ → ℕ → Bool
is_gone none now = Bool.false
is_gone (some deadline) now = leb deadline now

-- A key without members does not exist, and has no deadline.
abbrev pub kept_deadline : Members → Option ℕ → Option ℕ
kept_deadline [] deadline = none
kept_deadline (m ∷ members) deadline = deadline

-- The documented behaviour, in terms of the key's members with their scores, the one written last
-- in front, and of its deadline.
pub record Laws (S : Type 0) (redis : Redis S) : Type 0 where
  pub members : S → Members
  pub deadline : S → Option ℕ
  pub zcard_law : (s : S) → redis.zcard s ≡ length (members s)
  pub zscore_law : (t : String) (s : S) → redis.zscore t s ≡ lookup t (members s)
  pub zremrange_members :
      (m : ℕ) (s : S) → members (redis.zremrangebyscore m s) ≡ above m (members s)
  pub zremrange_deadline :
      (m : ℕ) (s : S)
      → deadline (redis.zremrangebyscore m s) ≡ kept_deadline (above m (members s)) (deadline s)
  pub zremrange_now : (m : ℕ) (s : S) → now_ms redis (redis.zremrangebyscore m s) ≡ now_ms redis s
  pub zadd_members :
      (n : ℕ) (t : String) (s : S) → members (redis.zadd n t s) ≡ (t, n) ∷ erase t (members s)
  pub zadd_now : (n : ℕ) (t : String) (s : S) → now_ms redis (redis.zadd n t s) ≡ now_ms redis s
  pub pexpire_members : (n : ℕ) (s : S) → members (redis.pexpire n s) ≡ members s
  pub pexpire_deadline :
      (n : ℕ) (s : S) (m : String × ℕ) (rest : Members)
      → members s ≡ m ∷ rest
      → deadline (redis.pexpire n s) ≡ some (now_ms redis s + n)
  pub pexpire_now : (n : ℕ) (s : S) → now_ms redis (redis.pexpire n s) ≡ now_ms redis s
  pub zrem_members : (t : String) (s : S) → members (redis.zrem t s).1 ≡ erase t (members s)
  pub zrem_deadline :
      (t : String) (s : S)
      → deadline (redis.zrem t s).1 ≡ kept_deadline (erase t (members s)) (deadline s)
  pub zrem_now : (t : String) (s : S) → now_ms redis (redis.zrem t s).1 ≡ now_ms redis s
  pub elapse_members :
      (d : ℕ) (s : S)
      → members (redis.elapse d s)
        ≡ (if is_gone (deadline s) (now_ms redis s + d) then [] else members s)
  pub elapse_deadline :
      (d : ℕ) (s : S)
      → deadline (redis.elapse d s)
        ≡ (if is_gone (deadline s) (now_ms redis s + d) then none else deadline s)
  pub elapse_now : (d : ℕ) (s : S) → now_ms redis (redis.elapse d s) ≡ now_ms redis s + d
