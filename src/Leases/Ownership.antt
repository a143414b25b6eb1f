-- ===== src/Leases/Ownership.antt =====
-- A lease is its owner's until it expires or is released, whatever the other streams do.
use django_graphex.Common.{
  ℕ, ◌+◌, ◌≤◌, ◌<◌, ◌≡◌, refl, sym, ap, subst, ◌∙◌, String, Bool, true, false, some, List, [], ◌∷◌,
  lookup, arith, inl, inr, ◌↔◌, str_eq, eq_refl,
}
use django_graphex.Leases.Redis.{Redis, Laws, now_ms}
use django_graphex.Leases.Scripts.{
  ttl_ms, acquire, renew, release, Event, acquires, renews, releases, elapses, serve, serve_all,
}
use django_graphex.Leases.Members.{live, lookup-erase, lookup-UpTo}
use django_graphex.Leases.Safety.{
  Safe, admitted, purged, admitted_now, admitted_members, purged_now, purged_members, acquire_cases,
  renew_cases, acquire-Safe, serve-Safe,
}
use django_graphex.Leases.Holding.{HoldsIn, HoldsIn-put, HoldsIn-above, HoldsIn-elapse}

-- The event does not release the token.
abbrev pub Keeps : String → Event → Type 0
Keeps token (acquires t) = Unit
Keeps token (renews t) = Unit
Keeps token (releases t) = str_eq t token ≡ false
Keeps token (elapses d) = Unit

abbrev pub AllKeep : String → List Event → Type 0
AllKeep token [] = Unit
AllKeep token (event ∷ events) = Keeps token event × AllKeep token events

module _ {S : Type 0} (redis : Redis S) (laws : Laws S redis) (limit : ℕ) where
  abbrev Holds : String → ℕ → S → Type 0
  Holds token expiry s = HoldsIn token expiry (laws.members s)

  acquire_now :
      (token : String) (s : S)
      → now_ms redis (acquire redis token limit ttl_ms s).1 ≡ now_ms redis s
  acquire_now token s = elim (acquire_cases redis laws limit token s) [
    | inl (le, e) ↦ rw e (purged_now redis laws s)
    | inr (lt, e) ↦
        rw e (admitted_now redis laws token (purged redis laws s) ∙ purged_now redis laws s)
  ]

  renew_now :
      (token : String) (s : S) → now_ms redis (renew redis token ttl_ms s).1 ≡ now_ms redis s
  renew_now token s = elim (renew_cases redis laws token s) [
    | inl (e, n) ↦ rw e refl
    | inr (x, look, lt, e) ↦ rw e (admitted_now redis laws token s)
  ]

  serve_now : (event : Event) (s : S) → now_ms redis s ≤ now_ms redis (serve redis limit event s)
  unfolding serve release
  serve_now (acquires token) s = omega (arith, acquire_now token s)
  serve_now (renews token) s = omega (arith, renew_now token s)
  serve_now (releases token) s = omega (arith, laws.zrem_now token s)
  serve_now (elapses d) s = omega (arith, laws.elapse_now d s)

  serve_all_now :
      (events : List Event) (s : S) → now_ms redis s ≤ now_ms redis (serve_all redis limit events s)
  unfolding serve_all
  serve_all_now [] s = omega arith
  serve_all_now (event ∷ events) s =
      omega (arith, serve_now event s, serve_all_now events (serve redis limit event s))

  admitted-Holds :
      (token t : String) (expiry : ℕ) (s : S)
      → expiry ≤ now_ms redis s + ttl_ms
      → Holds token expiry s
      → Holds token expiry (admitted redis laws t s)
  admitted-Holds token t expiry s le h =
      rw (admitted_members redis laws t s)
        (HoldsIn-put token t expiry (now_ms redis s + ttl_ms) (laws.members s) le h)

  purged-Holds :
      (token : String) (expiry : ℕ) (s : S)
      → now_ms redis s < expiry
      → Holds token expiry s
      → Holds token expiry (purged redis laws s)
  purged-Holds token expiry s lt h =
      rw (purged_members redis laws s)
        (HoldsIn-above token expiry (now_ms redis s) (laws.members s) lt h)

  -- A lease that is held was given for at most a lease's time.
  held_upto :
      (token : String) (expiry : ℕ) (s : S)
      → Safe redis laws limit s
      → Holds token expiry s
      → expiry ≤ now_ms redis s + ttl_ms
  held_upto token expiry s safe (x, le, e) =
      omega (arith, lookup-UpTo token (now_ms redis s + ttl_ms) x (laws.members s) safe.1 e)

  acquire-Holds :
      (token t : String) (expiry : ℕ) (s : S)
      → Safe redis laws limit s
      → now_ms redis s < expiry
      → Holds token expiry s
      → Holds token expiry (acquire redis t limit ttl_ms s).1
  acquire-Holds token t expiry s safe lt h = elim (acquire_cases redis laws limit t s) [
    | inl (le, e) ↦ rw e (purged-Holds token expiry s lt h)
    | inr (room, e) ↦ rw e (
        admitted-Holds token t expiry (purged redis laws s)
          (omega (arith, held_upto token expiry s safe h, purged_now redis laws s))
          (purged-Holds token expiry s lt h))
  ]

  renew-Holds :
      (token t : String) (expiry : ℕ) (s : S)
      → Safe redis laws limit s
      → Holds token expiry s
      → Holds token expiry (renew redis t ttl_ms s).1
  renew-Holds token t expiry s safe h = elim (renew_cases redis laws t s) [
    | inl (e, n) ↦ rw e h
    | inr (x, look, l, e) ↦
        rw e (admitted-Holds token t expiry s (held_upto token expiry s safe h) h)
  ]

  release-Holds :
      (token t : String) (expiry : ℕ) (s : S)
      → str_eq t token ≡ false
      → Holds token expiry s
      → Holds token expiry (release redis t s).1
  unfolding release
  release-Holds token t expiry s k (x, le, e) =
      (x, le, rw (laws.zrem_members t s) (lookup-erase t token (laws.members s) k ∙ e))

  elapse-Holds :
      (token : String) (expiry d : ℕ) (s : S)
      → Safe redis laws limit s
      → now_ms redis s + d < expiry
      → Holds token expiry s
      → Holds token expiry (redis.elapse d s)
  elapse-Holds token expiry d s safe lt h = rw (laws.elapse_members d s) (
      HoldsIn-elapse token expiry (now_ms redis s + d) (laws.members s) (laws.deadline s) safe.2 lt
        h)

  serve-Holds :
      (token : String) (expiry : ℕ) (event : Event) (s : S)
      → Safe redis laws limit s
      → Keeps token event
      → now_ms redis (serve redis limit event s) < expiry
      → Holds token expiry s
      → Holds token expiry (serve redis limit event s)
  unfolding serve
  serve-Holds token expiry (acquires t) s safe k lt h =
      acquire-Holds token t expiry s safe (omega (arith, acquire_now t s)) h
  serve-Holds token expiry (renews t) s safe k lt h = renew-Holds token t expiry s safe h
  serve-Holds token expiry (releases t) s safe k lt h = release-Holds token t expiry s k h
  serve-Holds token expiry (elapses d) s safe k lt h =
      elapse-Holds token expiry d s safe (omega (arith, laws.elapse_now d s)) h

  serve_all-Holds :
      (token : String) (expiry : ℕ) (events : List Event) (s : S)
      → Safe redis laws limit s
      → AllKeep token events
      → now_ms redis (serve_all redis limit events s) < expiry
      → Holds token expiry s
      → Holds token expiry (serve_all redis limit events s)
  unfolding serve_all
  serve_all-Holds token expiry [] s safe k lt h = h
  serve_all-Holds token expiry (event ∷ events) s safe k lt h =
      serve_all-Holds token expiry events (serve redis limit event s)
        (serve-Safe redis laws limit event s safe) k.1 lt
        (serve-Holds token expiry event s safe k.0
          (omega (arith, serve_all_now events (serve redis limit event s))) h)

  renew-Holds-true :
      (token : String) (expiry : ℕ) (s : S)
      → now_ms redis s < expiry
      → Holds token expiry s
      → (renew redis token ttl_ms s).0 ≡ true
  renew-Holds-true token expiry s lt (x, le, e) = elim (renew_cases redis laws token s) [
    | inl (f, n) ↦ absurd (omega (arith, n x e))
    | inr (y, look, l, f) ↦ rw f refl
  ]

  held_after :
      (token : String) (s s' : S)
      → acquire redis token limit ttl_ms s ≡ (true, s')
      → Holds token (now_ms redis s + ttl_ms) s'
  held_after token s s' e = elim (acquire_cases redis laws limit token s) [
    | inl (le, f) ↦ absurd (cc (e, f))
    | inr (lt, f) ↦ (
      now_ms redis s + ttl_ms,
      omega arith,
      subst (λ (u : S). lookup token (laws.members u) ≡ some (now_ms redis s + ttl_ms))
          (ap (λ (r : Bool × S). r.1) (sym f ∙ e))
          (rw
            (
              admitted_members redis laws token (purged redis laws s),
              purged_now redis laws s,
              eq_refl,
            )
            refl),
    )
  ]

-- The script admits a stream exactly when fewer than `limit` leases are live.
pub acquire-true_iff :
    {S : Type 0} (redis : Redis S) (laws : Laws S redis) (limit : ℕ) (token : String) (s : S)
    → ((acquire redis token limit ttl_ms s).0 ≡ true)
      ↔ (live (now_ms redis s) (laws.members s) < limit)
acquire-true_iff redis laws limit token s = elim (acquire_cases redis laws limit token s) [
  | inl (le, e) ↦ (λ t. absurd (cc (t, e)), λ lt. absurd (omega arith))
  | inr (lt, e) ↦ (λ t. lt, λ l. rw e refl)
]

-- A stream that is admitted can renew its lease at any time before the lease's time is over,
-- whatever the account's streams ask for in the meantime, unless its token is released.
pub renew-after_acquire :
    {S : Type 0} (redis : Redis S) (laws : Laws S redis) (limit : ℕ) (token : String) (s s' : S)
    (events : List Event)
    → Safe redis laws limit s
    → acquire redis token limit ttl_ms s ≡ (true, s')
    → AllKeep token events
    → now_ms redis (serve_all redis limit events s') < now_ms redis s + ttl_ms
    → (renew redis token ttl_ms (serve_all redis limit events s')).0 ≡ true
renew-after_acquire {S = S} redis laws limit token s s' events safe e keep lt =
    renew-Holds-true redis laws limit token (now_ms redis s + ttl_ms)
      (serve_all redis limit events s') lt
      (serve_all-Holds redis laws limit token (now_ms redis s + ttl_ms) events s'
        (subst (Safe redis laws limit) (ap (λ (r : Bool × S). r.1) e)
          (acquire-Safe redis laws limit token s safe))
        keep lt (held_after redis laws limit token s s' e))
