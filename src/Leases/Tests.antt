-- ===== src/Leases/Tests.antt =====
-- A server that behaves as documented, and runs of the scripts on it.
use django_graphex.Common.{
  ℕ, ◌+◌, ◌*◌, ◌<◌, ◌↔◌, ◌≡◌, refl, true, false, Option, none, some, List, [], ◌∷◌, lookup, length,
  is_some, if◌then◌else◌, arith,
}
use django_graphex.Leases.Redis.{Redis, Laws, Members, now_ms, above, erase, is_gone, kept_deadline}
use django_graphex.Leases.Scripts.{
  ttl_ms, acquire, renew, release, Event, acquires, releases, elapses, serve, serve_all,
}
use django_graphex.Leases.Members.{live}
use django_graphex.Leases.Safety.{Safe, serve_all-Safe}
use django_graphex.Leases.Ownership.{acquire-true_iff, renew-after_acquire}
use django_graphex.Leases.Client.{
  Lease, Answer, returned, raised, close_blocking, renew_blocking, perform_all, close_blocking-last,
  Use,
}

record Server : Type 0 where
  now : ℕ
  members : Members
  deadline : Option ℕ

abbrev server : Redis Server
server = record {
  time = λ s. (0, s.now * 1000);
  zremrangebyscore = λ m s. record s {
    members = above m s.members;
    deadline = kept_deadline (above m s.members) s.deadline;
  };
  zcard = λ s. length s.members;
  zadd = λ n t s. record s { members = (t, n) ∷ erase t s.members };
  zscore = λ t s. lookup t s.members;
  pexpire = λ n s. record s { deadline = some (s.now + n) };
  zrem = λ t s. (
    is_some (lookup t s.members),
    record s {
      members = erase t s.members;
      deadline = kept_deadline (erase t s.members) s.deadline;
    },
  );
  elapse = λ d s. record {
    now = s.now + d;
    members = if is_gone s.deadline (s.now + d) then [] else s.members;
    deadline = if is_gone s.deadline (s.now + d) then none else s.deadline;
  };
}

server_now : (s : Server) → now_ms server s ≡ s.now
unfolding now_ms
server_now s = omega arith

server_laws : Laws Server server
unfolding now_ms
server_laws = record {
  members = λ s. s.members;
  deadline = λ s. s.deadline;
  zcard_law = λ s. refl;
  zscore_law = λ t s. refl;
  zremrange_members = λ m s. refl;
  zremrange_deadline = λ m s. refl;
  zremrange_now = λ m s. refl;
  zadd_members = λ n t s. refl;
  zadd_now = λ n t s. refl;
  pexpire_members = λ n s. refl;
  pexpire_deadline = λ n s m rest e. rw (server_now s) refl;
  pexpire_now = λ n s. refl;
  zrem_members = λ t s. refl;
  zrem_deadline = λ t s. refl;
  zrem_now = λ t s. refl;
  elapse_members = λ d s. rw (server_now s) refl;
  elapse_deadline = λ d s. rw (server_now s) refl;
  elapse_now = λ d s. omega arith;
}

abbrev empty_key : Server
empty_key = record { now = 1000; members = []; deadline = none }

abbrev one_lease : Server
one_lease = record { now = 1000; members = ("a", 46000) ∷ []; deadline = some 91000 }

abbrev busy : List Event
busy = acquires "b" ∷ elapses 30000 ∷ acquires "c" ∷ releases "b" ∷ elapses 14000 ∷ []

empty_key-Safe : Safe server server_laws 1 empty_key
unfolding server_laws
empty_key-Safe = (omega arith, tt, refl)

serve_all-Safe_example :
    Safe server server_laws 1 (serve_all server 1 (acquires "a" ∷ busy) empty_key)
serve_all-Safe_example =
    serve_all-Safe server server_laws 1 (acquires "a" ∷ busy) empty_key empty_key-Safe

acquire_runs : acquire server "a" 1 ttl_ms empty_key ≡ (true, one_lease)
unfolding acquire now_ms
acquire_runs = refl

acquire-true_iff_example :
    ((acquire server "b" 1 ttl_ms one_lease).0 ≡ true)
    ↔ (live (now_ms server one_lease) one_lease.members < 1)
unfolding server_laws now_ms
acquire-true_iff_example = acquire-true_iff server server_laws 1 "b" one_lease

renew-after_acquire_example : (renew server "a" ttl_ms (serve_all server 1 busy one_lease)).0 ≡ true
renew-after_acquire_example =
    renew-after_acquire server server_laws 1 "a" empty_key one_lease busy empty_key-Safe
      acquire_runs (tt, (tt, (tt, (refl, (tt, tt)))))
      (unfold serve_all serve acquire now_ms release in omega arith)

abbrev lease : Lease
lease = record { renewed_at = none; key = "k"; token = "a"; closed = false; calls = [] }

abbrev later : List Use
later = Use.closes raised ∷ Use.renews (returned 1) ∷ []

close_blocking-last_example :
    (perform_all later (close_blocking raised lease) ≡ close_blocking raised lease)
    × ((a : Answer)
        → (renew_blocking a (perform_all later (close_blocking raised lease))).0 ≡ some false)
close_blocking-last_example = close_blocking-last raised later lease
