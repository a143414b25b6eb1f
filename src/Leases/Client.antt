-- ===== src/Leases/Client.antt =====
-- `_Lease`: the process's own record of a lease, which closes once.
use django_graphex.Common.{
  ℕ, ◌+◌, ◌-◌, ◌≡◌, refl, String, Bool, true, false, Option, none, some, List, [], ◌∷◌, ltb, arith,
  if◌then◌else◌,
}
use django_graphex.Leases.Scripts.{ttl_ms}

-- What the client is asked to evaluate.
pub data Call : Type 0 where
  renew_call : String → String → ℕ → Call
  release_call : String → String → Call

-- The client's answer: the script's value, or an exception.
pub data Answer : Type 0 where
  returned : ℕ → Answer
  raised : Answer

-- Times are in milliseconds. `calls` lists what the lease had the client evaluate, the last first.
pub record Lease : Type 0 where
  pub renewed_at : Option ℕ
  pub key : String
  pub token : String
  pub closed : Bool
  pub calls : List Call

truth : Answer → Option Bool
truth raised = none
truth (returned n) = some (ltb 0 n)

-- `_renew_blocking`: none is the client's exception.
unfoldable pub renew_blocking : Answer → Lease → Option Bool × Lease
unfolding truth
renew_blocking answer lease = if lease.closed then (some false, lease) else (
  truth answer,
  record lease { calls = renew_call lease.key lease.token ttl_ms ∷ lease.calls },
)

-- `_close_blocking`, which swallows the client's exception.
unfoldable pub close_blocking : Answer → Lease → Lease
close_blocking answer lease =
    if lease.closed
    then lease
    else record lease { closed = true; calls = release_call lease.key lease.token ∷ lease.calls }

-- `_SAFETY_MARGIN`
abbrev pub safety_margin_ms : ℕ
safety_margin_ms = 5000

unfoldable pub may_still_own : ℕ → Lease → Bool
may_still_own now lease = elim lease.renewed_at [
  | none ↦ false
  | some at ↦ ltb now (at + ttl_ms - safety_margin_ms)
]

-- What a stream and the response's callbacks call, in any order.
pub data Use : Type 0 where
  renews : Answer → Use
  closes : Answer → Use

unfoldable pub perform : Use → Lease → Lease
perform (renews answer) lease = (renew_blocking answer lease).1
perform (closes answer) lease = close_blocking answer lease

unfoldable pub perform_all : List Use → Lease → Lease
perform_all [] lease = lease
perform_all (u ∷ uses) lease = perform_all uses (perform u lease)

closed_stays :
    (uses : List Use) (lease : Lease) → lease.closed ≡ true → perform_all uses lease ≡ lease
unfolding perform_all perform renew_blocking close_blocking
closed_stays [] lease e = refl
closed_stays (renews answer ∷ uses) lease e = ground (arith, closed_stays uses lease e)
closed_stays (closes answer ∷ uses) lease e = ground (arith, closed_stays uses lease e)

-- Once a lease is closed, nothing that is called on it reaches the server again: whatever follows,
-- its release is the last call, and a renewal answers False.
pub close_blocking-last :
    (answer : Answer) (uses : List Use) (lease : Lease)
    → (perform_all uses (close_blocking answer lease) ≡ close_blocking answer lease)
      × ((a : Answer)
          → (renew_blocking a (perform_all uses (close_blocking answer lease))).0 ≡ some false)
unfolding close_blocking renew_blocking
close_blocking-last answer uses lease =
    ground (arith, closed_stays uses (close_blocking answer lease))
