-- ===== src/Leases/Bounds.antt =====
-- Sets of leases that stay within a limit, under a deadline that covers them.
use django_graphex.Common.{
  ℕ, ◌+◌, ◌*◌, ◌≤◌, ◌<◌, ◌≡◌, refl, String, Bool, true, false, Option, none, some, [], ◌∷◌, arith,
  if◌then◌else◌,
}
use django_graphex.Leases.Redis.{Members, above, erase, kept_deadline}
use django_graphex.Leases.Scripts.{ttl_ms}
use django_graphex.Leases.Members.{
  live, live-above, live-erase, live-later, UpTo, UpTo-above, UpTo-erase, UpTo-le,
}

-- The key's deadline is no earlier than the expiry of any member.
abbrev pub Covered : Members → Option ℕ → Type 0
Covered members none = members ≡ []
Covered members (some deadline) = UpTo deadline members

-- At most `limit` live leases, none of which runs for longer than a lease's time, under a key that
-- outlives them.
abbrev pub IsSafe : ℕ → ℕ → Members → Option ℕ → Type 0
IsSafe limit now members deadline =
    (live now members ≤ limit) × UpTo (now + ttl_ms) members × Covered members deadline

pub Covered-kept :
    (ms : Members) (deadline : Option ℕ)
    → Covered ms deadline
    → Covered ms (kept_deadline ms deadline)
Covered-kept [] deadline c = refl
Covered-kept (m ∷ ms) deadline c = c

pub Covered-above :
    (now : ℕ) (ms : Members) (deadline : Option ℕ)
    → Covered ms deadline
    → Covered (above now ms) deadline
Covered-above now ms none c = rw c refl
Covered-above now ms (some d) c = UpTo-above now d ms c

pub Covered-erase :
    (t : String) (ms : Members) (deadline : Option ℕ)
    → Covered ms deadline
    → Covered (erase t ms) deadline
Covered-erase t ms none c = rw c refl
Covered-erase t ms (some d) c = UpTo-erase t d ms c

-- A member that replaces nothing, or one that was live.
pub IsSafe-put :
    (limit now : ℕ) (t : String) (ms : Members)
    → live now (erase t ms) < limit
    → UpTo (now + ttl_ms) ms
    → IsSafe limit now ((t, now + ttl_ms) ∷ erase t ms) (some (now + ttl_ms * 2))
IsSafe-put limit now t ms lt u = (
  ground arith,
  (omega arith, UpTo-erase t (now + ttl_ms) ms u),
  (
    omega arith,
    UpTo-le (now + ttl_ms) (now + ttl_ms * 2) (erase t ms) (omega arith)
        (UpTo-erase t (now + ttl_ms) ms u),
  ),
)

pub IsSafe-kept :
    (limit now : ℕ) (ms : Members) (deadline : Option ℕ)
    → IsSafe limit now ms deadline
    → IsSafe limit now (above now ms) (kept_deadline (above now ms) deadline)
IsSafe-kept limit now ms deadline (l, u, c) = (
  rw (live-above now ms) l,
  UpTo-above now (now + ttl_ms) ms u,
  Covered-kept (above now ms) deadline (Covered-above now ms deadline c),
)

pub IsSafe-erase :
    (limit now : ℕ) (t : String) (ms : Members) (deadline : Option ℕ)
    → IsSafe limit now ms deadline
    → IsSafe limit now (erase t ms) (kept_deadline (erase t ms) deadline)
IsSafe-erase limit now t ms deadline (l, u, c) = (
  omega (arith, live-erase now t ms),
  UpTo-erase t (now + ttl_ms) ms u,
  Covered-kept (erase t ms) deadline (Covered-erase t ms deadline c),
)

pub IsSafe-elapse :
    (limit now d : ℕ) (ms : Members) (deadline : Option ℕ) (gone : Bool)
    → IsSafe limit now ms deadline
    → IsSafe limit (now + d) (if gone then [] else ms) (if gone then none else deadline)
IsSafe-elapse limit now d ms deadline true s = (omega arith, tt, refl)
IsSafe-elapse limit now d ms deadline false (l, u, c) = (
  omega (arith, live-later now (now + d) ms (omega arith)),
  UpTo-le (now + ttl_ms) (now + d + ttl_ms) ms (omega arith) u,
  c,
)
