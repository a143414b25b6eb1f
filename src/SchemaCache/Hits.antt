-- ===== src/SchemaCache/Hits.antt =====
-- A schema that was just served is served again without being built again.
use django_graphex.Common.{
  ℕ, ◌≤◌, ◌≡◌, ◌⊎◌, refl, ap, subst, Bool, true, false, ◌&&◌, String, Option, none, some, List, [],
  ◌∷◌, eq_refl, ==_iff, arith, Bool-cases, Option-cases, inl, inr,
}
use django_graphex.SchemaCache.Signature.{Host}
use django_graphex.SchemaCache.Cache.{
  Key, Entry, key_eq, find, erase, safe_ref, is_source, effective, key_of, get, store, Served,
  from_cache, built_now, User, build_pruned, check_again, pruned_schema_for,
}
use django_graphex.SchemaCache.Entries.{find-erase, find-append, find-evict_last}

first-eq : {P : Type 0} (x e : Entry P) → some x ≡ some e → x ≡ e
first-eq x e p = cc p

find-same :
    {P : Type 0} (key : Key) (xs : List (Entry P)) (e : Entry P)
    → find key xs ≡ some e
    → key_eq e.key key ≡ true
find-same key [] e f = absurd (cc f)
find-same {P = P} key (x ∷ xs) e f = elim (Bool-cases (key_eq x.key key)) [
  | inl same ↦
      subst (λ (y : Entry P). key_eq y.key key ≡ true) {x = x} {y = e} (first-eq x e (rw same at f))
        same
  | inr other ↦ find-same key xs e (rw other at f)
]

key_eq_refl : (key : Key) → key_eq key key ≡ true
key_eq_refl (a, s) = ground (arith, eq_refl s)

-- A source that is still alive is the source.
is_source-alive :
    (is_alive is_alive' : ℕ → Bool) (full : ℕ) (ref : Option ℕ)
    → is_source is_alive full ref ≡ true
    → is_alive' full ≡ true
    → is_source is_alive' full ref ≡ true
is_source-alive is_alive is_alive' full none s l = refl
is_source-alive is_alive is_alive' full (some u) s l =
    ground (arith, ==_iff u full, ap is_alive' {x = u} {y = full})

module _ {P : Type 0} (host : Host P) (is_alive : ℕ → Bool) (key : Key) (full : ℕ) where
  -- The entry under the key, if it belongs to the full schema.
  abbrev Holds : P → List (Entry P) → Type 0
  Holds p entries =
      (e : Entry P) × (find key entries ≡ some e)
      × (e.pruned ≡ p)
      × (is_source is_alive full e.ref ≡ true)

  Holds-get :
      (p : P) (entries : List (Entry P))
      → Holds p entries
      → (get host is_alive key full entries).0 ≡ some p
  unfolding get
  Holds-get p entries (e, f, q, s) = rw (f, s, get) (ap some q)

  get-Holds :
      (p : P) (entries : List (Entry P))
      → (get host is_alive key full entries).0 ≡ some p
      → Holds p (get host is_alive key full entries).1
  unfolding get
  get-Holds p entries h = elim (Option-cases (find key entries)) [
    | inl f ↦ absurd (cc (rw (f, get) at h))
    | inr (e, f) ↦ elim (Bool-cases (is_source is_alive full e.ref)) [
      | inl s ↦ (
        e,
        rw (f, s, get)
            (find-append key (erase key entries) e (find-same key entries e f)
              (find-erase key entries)),
        cc (rw (f, s, get) at h),
        s,
      )
      | inr s ↦ absurd (cc (rw (f, s, get) at h))
    ]
  ]

  -- A miss leaves nothing under the key.
  get-miss :
      (entries : List (Entry P))
      → (get host is_alive key full entries).0 ≡ none
      → find key (get host is_alive key full entries).1 ≡ none
  unfolding get
  get-miss entries h = elim (Option-cases (find key entries)) [
    | inl f ↦ rw (f, get) f
    | inr (e, f) ↦ elim (Bool-cases (is_source is_alive full e.ref)) [
      | inl s ↦ absurd (cc (rw (f, s, get) at h))
      | inr s ↦ rw (f, s, get) (find-erase key entries)
    ]
  ]

  get-none :
      (entries : List (Entry P))
      → find key entries ≡ none
      → get host is_alive key full entries ≡ (none, entries)
  unfolding get
  get-none entries f = rw (f, get) refl

  store-Holds :
      (maxsize : ℕ) (p : P) (entries : List (Entry P))
      → 1 ≤ maxsize
      → host.is_referenceable full ≡ true
      → is_alive full ≡ true
      → Holds p (store host maxsize key full p entries)
  unfolding store
  store-Holds maxsize p entries pos r l = (
    record { key = key; ref = safe_ref host full; pruned = p },
    find-evict_last maxsize key (erase key entries) _ pos (key_eq_refl key)
        (find-erase key entries),
    refl,
    ground (arith, ==_iff full full),
  )

module _ {P : Type 0} (host : Host P) (maxsize full : ℕ) (pos : 1 ≤ maxsize)
    (r : host.is_referenceable full ≡ true) (key : Key) (grants : List String) where
  -- What is served, and what stands in the cache then.
  abbrev Fresh : (ℕ → Bool) → Served P × List (Entry P) → Type 0
  Fresh is_alive (served, entries) =
      (p : P) × ((served ≡ from_cache p) ⊎ (served ≡ built_now p))
      × Holds host is_alive key full p entries

  build-Fresh :
      (is_alive : ℕ → Bool) (result : Option P × List (Entry P))
      → is_alive full ≡ true
      → ((p : P) → result.0 ≡ some p → Holds host is_alive key full p result.1)
      → Fresh is_alive (build_pruned host is_alive maxsize key full grants result)
  build-Fresh is_alive (some p, entries) l h = (p, inl refl, h p refl)
  build-Fresh is_alive (none, entries) l h = (
    host.prune full grants,
    inr refl,
    store-Holds host is_alive key full maxsize (host.prune full grants) entries pos r l,
  )

  check_again-Fresh :
      (is_alive : ℕ → Bool) (result : Option P × List (Entry P))
      → is_alive full ≡ true
      → ((p : P) → result.0 ≡ some p → Holds host is_alive key full p result.1)
      → Fresh is_alive (check_again host is_alive maxsize key full grants result)
  check_again-Fresh is_alive (some p, entries) l h = (p, inl refl, h p refl)
  check_again-Fresh is_alive (none, entries) l h =
      build-Fresh is_alive (get host is_alive key full entries) l
        (λ p e. get-Holds host is_alive key full p entries e)

  check_again-some :
      (is_alive : ℕ → Bool) (result : Option P × List (Entry P)) (p : P)
      → result.0 ≡ some p
      → (check_again host is_alive maxsize key full grants result).0 ≡ from_cache p
  check_again-some is_alive (some q, entries) p e = cc e
  check_again-some is_alive (none, entries) p e = absurd (cc e)

-- Where the cache may hold an entry: a call that is followed by another for the same user and the
-- same full schema serves some pruned schema, and the second call serves the same one from the
-- cache, whatever the cache held before and whatever else was collected in between.
pub pruned_schema_for-again :
    {P : Type 0} (host : Host P) (is_alive is_alive' : ℕ → Bool) (maxsize full : ℕ) (user : User)
    (entries : List (Entry P))
    → 1 ≤ maxsize
    → host.is_referenceable full ≡ true
    → is_alive full ≡ true
    → is_alive' full ≡ true
    → user.is_active && user.is_superuser ≡ false
    → (p : P) × (((pruned_schema_for host is_alive maxsize user full entries).0 ≡ from_cache p)
        ⊎ ((pruned_schema_for host is_alive maxsize user full entries).0 ≡ built_now p))
      × ((pruned_schema_for host is_alive' maxsize user full
            (pruned_schema_for host is_alive maxsize user full entries).1).0
          ≡ from_cache p)
unfolding pruned_schema_for
pruned_schema_for-again host is_alive is_alive' maxsize full user entries pos r l l' plain =
    let key = key_of host full user.all_permissions in
    let grants = effective host full user.all_permissions in
    let (p, served, (e, f, q, s)) =
      check_again-Fresh host maxsize full pos r key grants is_alive
        (get host is_alive key full entries) l
        (λ p h. get-Holds host is_alive key full p entries h) in
    (
      p,
      rw plain served,
      rw plain (
          check_again-some host maxsize full pos r key grants is_alive'
            (get host is_alive' key full _) p
            (Holds-get host is_alive' key full p _
              (e, f, q, is_source-alive is_alive is_alive' full e.ref s l'))),
    )
