-- ===== src/Leases/Safety.antt =====
-- However the streams of an account interleave, the live leases stay within the limit, and the
-- key outlives its leases.
use django_graphex.Common.{
  ℕ, ◌+◌, ◌*◌, ◌≤◌, ◌<◌, ◌≡◌, refl, ap, ◌∙◌, String, true, false, some, List, [], ◌∷◌, lookup, leb,
  arith, Bool-cases, Option-cases, inl, inr, ◌⊎◌,
}
use django_graphex.Leases.Redis.{Redis, Laws, now_ms, above, erase, is_gone}
use django_graphex.Leases.Scripts.{
  ttl_ms, acquire, renew, release, Event, acquires, renews, releases, elapses, serve, serve_all,
}
use django_graphex.Leases.Members.{
  live, length-above, live-above, live-erase, live-erase_member, UpTo,
}
use django_graphex.Leases.Bounds.{IsSafe, IsSafe-put, IsSafe-kept, IsSafe-erase, IsSafe-elapse}

module _ {S : Type 0} (redis : Redis S) (laws : Laws S redis) where
  -- The state of the server's key, for an account with this limit.
  abbrev pub Safe : ℕ → S → Type 0
  Safe limit s = IsSafe limit (now_ms redis s) (laws.members s) (laws.deadline s)

  unfoldable pub admitted : String → S → S
  admitted token s = redis.pexpire (ttl_ms * 2) (redis.zadd (now_ms redis s + ttl_ms) token s)

  pub admitted_now : (token : String) (s : S) → now_ms redis (admitted token s) ≡ now_ms redis s
  unfolding admitted
  admitted_now token s =
      laws.pexpire_now (ttl_ms * 2) (redis.zadd (now_ms redis s + ttl_ms) token s)
      ∙ laws.zadd_now (now_ms redis s + ttl_ms) token s

  pub admitted_members :
      (token : String) (s : S)
      → laws.members (admitted token s)
        ≡ (token, now_ms redis s + ttl_ms) ∷ erase token (laws.members s)
  unfolding admitted
  admitted_members token s =
      laws.pexpire_members (ttl_ms * 2) (redis.zadd (now_ms redis s + ttl_ms) token s)
      ∙ laws.zadd_members (now_ms redis s + ttl_ms) token s

  admitted_deadline :
      (token : String) (s : S)
      → laws.deadline (admitted token s) ≡ some (now_ms redis s + ttl_ms * 2)
  unfolding admitted
  admitted_deadline token s =
      laws.pexpire_deadline (ttl_ms * 2) (redis.zadd (now_ms redis s + ttl_ms) token s) _ _
        (laws.zadd_members (now_ms redis s + ttl_ms) token s)
      ∙ ap (λ (n : ℕ). some (n + ttl_ms * 2)) (laws.zadd_now (now_ms redis s + ttl_ms) token s)

  -- The key behind a lease that is admitted or extended.
  admitted-Safe :
      (limit : ℕ) (token : String) (s : S)
      → live (now_ms redis s) (erase token (laws.members s)) < limit
      → UpTo (now_ms redis s + ttl_ms) (laws.members s)
      → Safe limit (admitted token s)
  admitted-Safe limit token s lt u =
      rw (admitted_now token s, admitted_members token s, admitted_deadline token s)
        (IsSafe-put limit (now_ms redis s) token (laws.members s) lt u)

  -- The set after `ZREMRANGEBYSCORE`, with all expired leases gone.
  unfoldable pub purged : S → S
  purged s = redis.zremrangebyscore (now_ms redis s) s

  purged-Safe : (limit : ℕ) (s : S) → Safe limit s → Safe limit (purged s)
  unfolding purged
  purged-Safe limit s safe =
      rw
        (
          laws.zremrange_now (now_ms redis s) s,
          laws.zremrange_members (now_ms redis s) s,
          laws.zremrange_deadline (now_ms redis s) s,
        )
        (IsSafe-kept limit (now_ms redis s) (laws.members s) (laws.deadline s) safe)

  pub purged_now : (s : S) → now_ms redis (purged s) ≡ now_ms redis s
  unfolding purged
  purged_now s = rw (laws.zremrange_now (now_ms redis s) s) refl

  purged-live : (s : S) → redis.zcard (purged s) ≡ live (now_ms redis s) (laws.members s)
  unfolding purged
  purged-live s =
      laws.zcard_law (redis.zremrangebyscore (now_ms redis s) s)
      ∙ rw (laws.zremrange_members (now_ms redis s) s)
          (length-above (now_ms redis s) (laws.members s))

  pub purged_members : (s : S) → laws.members (purged s) ≡ above (now_ms redis s) (laws.members s)
  unfolding purged
  purged_members s = laws.zremrange_members (now_ms redis s) s

  -- What `_ACQUIRE` does: it purges, and admits if there is room.
  pub acquire_cases :
      (limit : ℕ) (token : String) (s : S)
      → ((limit ≤ live (now_ms redis s) (laws.members s))
          × (acquire redis token limit ttl_ms s ≡ (false, purged s)))
        ⊎ ((live (now_ms redis s) (laws.members s) < limit)
            × (acquire redis token limit ttl_ms s ≡ (true, admitted token (purged s))))
  unfolding acquire purged admitted
  acquire_cases limit token s = ground (arith, purged-live s, purged_now s)

  -- What `_RENEW` does: it extends a live lease and no other.
  pub renew_cases :
      (token : String) (s : S)
      → ((renew redis token ttl_ms s ≡ (false, s))
          × ((expiry : ℕ) → lookup token (laws.members s) ≡ some expiry → expiry ≤ now_ms redis s))
        ⊎ ((expiry : ℕ) × (lookup token (laws.members s) ≡ some expiry)
            × (now_ms redis s < expiry)
            × (renew redis token ttl_ms s ≡ (true, admitted token s)))
  unfolding renew admitted
  renew_cases token s = elim (Option-cases (lookup token (laws.members s))) [
    | inl e ↦ inl (rw (laws.zscore_law token s, e) refl, λ expiry e'. absurd (cc (e, e')))
    | inr (expiry, e) ↦ elim (Bool-cases (leb expiry (now_ms redis s))) [
      | inl le ↦ inl (ground (arith, laws.zscore_law token s), λ x e'. ground arith)
      | inr gt ↦ inr (expiry, e, ground arith, ground (arith, laws.zscore_law token s))
    ]
  ]

  purged_room :
      (limit : ℕ) (token : String) (s : S)
      → live (now_ms redis s) (laws.members s) < limit
      → live (now_ms redis (purged s)) (erase token (laws.members (purged s))) < limit
  purged_room limit token s lt =
      rw (purged_now s, purged_members s)
        (omega (
          arith,
          live-erase (now_ms redis s) token (above (now_ms redis s) (laws.members s)),
          live-above (now_ms redis s) (laws.members s),
        ))

  pub acquire-Safe :
      (limit : ℕ) (token : String) (s : S)
      → Safe limit s
      → Safe limit (acquire redis token limit ttl_ms s).1
  acquire-Safe limit token s safe = elim (acquire_cases limit token s) [
    | inl (le, e) ↦ rw e (purged-Safe limit s safe)
    | inr (lt, e) ↦ rw e (
        admitted-Safe limit token (purged s) (purged_room limit token s lt)
          (purged-Safe limit s safe).1)
  ]

  renew-Safe :
      (limit : ℕ) (token : String) (s : S)
      → Safe limit s
      → Safe limit (renew redis token ttl_ms s).1
  renew-Safe limit token s safe = elim (renew_cases token s) [
    | inl (e, n) ↦ rw e safe
    | inr (expiry, look, lt, e) ↦ rw e (
        admitted-Safe limit token s
          (omega (
            arith,
            live-erase_member (now_ms redis s) expiry token (laws.members s) look lt,
            safe.0,
          ))
          safe.1)
  ]

  release-Safe :
      (limit : ℕ) (token : String) (s : S) → Safe limit s → Safe limit (release redis token s).1
  unfolding release
  release-Safe limit token s safe =
      rw (laws.zrem_now token s, laws.zrem_members token s, laws.zrem_deadline token s)
        (IsSafe-erase limit (now_ms redis s) token (laws.members s) (laws.deadline s) safe)

  elapse-Safe : (limit d : ℕ) (s : S) → Safe limit s → Safe limit (redis.elapse d s)
  elapse-Safe limit d s safe =
      rw (laws.elapse_now d s, laws.elapse_members d s, laws.elapse_deadline d s)
        (IsSafe-elapse limit (now_ms redis s) d (laws.members s) (laws.deadline s)
          (is_gone (laws.deadline s) (now_ms redis s + d)) safe)

  pub serve-Safe :
      (limit : ℕ) (event : Event) (s : S) → Safe limit s → Safe limit (serve redis limit event s)
  unfolding serve
  serve-Safe limit (acquires token) s safe = acquire-Safe limit token s safe
  serve-Safe limit (renews token) s safe = renew-Safe limit token s safe
  serve-Safe limit (releases token) s safe = release-Safe limit token s safe
  serve-Safe limit (elapses d) s safe = elapse-Safe limit d s safe

-- Whatever the streams of an account ask for, and in whatever order, at most `limit` leases are
-- live, none runs longer than a lease's time, and the key's deadline is never before the expiry of
-- a member: in every state that is reached from a safe one, for example from an empty key.
pub serve_all-Safe :
    {S : Type 0} (redis : Redis S) (laws : Laws S redis) (limit : ℕ) (events : List Event) (s : S)
    → Safe redis laws limit s
    → Safe redis laws limit (serve_all redis limit events s)
unfolding serve_all
serve_all-Safe redis laws limit [] s safe = safe
serve_all-Safe redis laws limit (event ∷ events) s safe =
    serve_all-Safe redis laws limit events (serve redis limit event s)
      (serve-Safe redis laws limit event s safe)
