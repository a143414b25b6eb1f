-- ===== src/SchemaCache/Safety.antt =====
-- Whatever the threads do, no caller gets a schema that was built for another full schema, and the
-- cache stays within its bound.
use django_graphex.Common.{
  ℕ, ◌≤◌, ◌≡◌, refl, ap, ◌∙◌, sym, Bool, true, String, some, List, [], ◌∷◌, ◌++◌, length,
  length-append, eq_iff, ==_iff, arith, Bool-cases, Option-cases, inl, inr,
}
use django_graphex.SchemaCache.Signature.{Host, permission_signature}
use django_graphex.SchemaCache.Cache.{
  Key, Entry, key_eq, find, erase, safe_ref, is_source, effective, key_of, get, store, Section,
  gets, stores, clears, section, sections,
}
use django_graphex.SchemaCache.Entries.{
  IsValid, IsValid-append, IsValid-erase, IsValid-evict, IsValid-find, length-evict, length-erase,
  length-erase_found,
}

key_eq-signature : (k j : Key) → key_eq k j ≡ true → k.1 ≡ j.1
key_eq-signature (a, s) (b, t) e = ground (arith, eq_iff s t)

the_pruned : {P : Type 0} {a b : P} → some a ≡ some b → a ≡ b
the_pruned p = cc p

module _ {P : Type 0} (host : Host P) where
  get-IsValid :
      (is_alive : ℕ → Bool) (key : Key) (full : ℕ) (entries : List (Entry P))
      → IsValid host entries
      → IsValid host (get host is_alive key full entries).1
  unfolding get
  get-IsValid is_alive key full entries v = elim (Option-cases (find key entries)) [
    | inl f ↦ rw (f, get) v
    | inr (e, f) ↦ elim (Bool-cases (is_source is_alive full e.ref)) [
      | inl s ↦
          rw (f, s, get)
            (IsValid-append host (erase key entries) (e ∷ []) (IsValid-erase host key entries v)
              ((IsValid-find host key entries e v f).0, tt))
      | inr s ↦ rw (f, s, get) (IsValid-erase host key entries v)
    ]
  ]

  store-IsValid :
      (maxsize full : ℕ) (granted : List String) (entries : List (Entry P))
      → IsValid host entries
      → IsValid host (
          store host maxsize
            (key_of host full granted)
            full
            (host.prune full (effective host full granted))
            entries)
  unfolding store
  store-IsValid maxsize full granted entries v = IsValid-evict host maxsize _ (
      IsValid-append host (erase (key_of host full granted) entries) _
        (IsValid-erase host (key_of host full granted) entries v)
        ((full, effective host full granted, refl, refl, refl), tt))

  pub section-IsValid :
      (s : Section) (entries : List (Entry P))
      → IsValid host entries
      → IsValid host (section host s entries)
  unfolding section
  section-IsValid (gets is_alive full granted) entries v =
      get-IsValid is_alive (key_of host full granted) full entries v
  section-IsValid (stores maxsize full granted) entries v =
      store-IsValid maxsize full granted entries v
  section-IsValid clears entries v = tt

  pub sections-IsValid :
      (rest : List Section) (entries : List (Entry P))
      → IsValid host entries
      → IsValid host (sections host rest entries)
  unfolding sections
  sections-IsValid [] entries v = v
  sections-IsValid (s ∷ rest) entries v =
      sections-IsValid rest (section host s entries) (section-IsValid s entries v)

  source-eq :
      (is_alive : ℕ → Bool) (full u : ℕ)
      → host.is_referenceable u ≡ true
      → is_source is_alive full (safe_ref host u) ≡ true
      → u ≡ full
  source-eq is_alive full u r s = ground (arith, ==_iff u full)

  -- A hit is an entry of this full schema with this signature.
  get-hit :
      (is_alive : ℕ → Bool) (full : ℕ) (granted : List String) (entries : List (Entry P)) (p : P)
      → ((u : ℕ) → host.is_referenceable u ≡ true)
      → IsValid host entries
      → (get host is_alive (key_of host full granted) full entries).0 ≡ some p
      → (grants : List String) × (permission_signature host grants grants
          ≡ permission_signature host (effective host full granted) (effective host full granted))
        × (p ≡ host.prune full grants)
  unfolding get
  get-hit is_alive full granted entries p all v h =
      elim (Option-cases (find (key_of host full granted) entries)) [
        | inl f ↦ absurd (cc (rw (f, get) at h))
        | inr (e, f) ↦
            let ((u, grants, k, r, q), same) =
              IsValid-find host (key_of host full granted) entries e v f in
            elim (Bool-cases (is_source is_alive full e.ref)) [
              | inl s ↦ (
                grants,
                sym (ap (λ (j : Key). j.1) k)
                    ∙ key_eq-signature e.key (key_of host full granted) same,
                sym (the_pruned (rw (f, s, get) at h))
                    ∙ q
                    ∙ ap (λ (x : ℕ). host.prune x grants)
                        (source-eq is_alive full u (all u) (rw r at s)),
              )
              | inr s ↦ absurd (cc (rw (f, s, get) at h))
            ]
      ]

-- Whatever the sections of other threads before it, in whatever order they took the lock: what a
-- caller finds in the cache was built by pruning the caller's own full schema, for grants with the
-- signature of the caller's, also where a full schema stands at the address of a collected one.
pub get-own_schema :
    {P : Type 0} (host : Host P) (before : List Section) (is_alive : ℕ → Bool) (full : ℕ)
    (granted : List String) (p : P)
    → ((u : ℕ) → host.is_referenceable u ≡ true)
    → (get host is_alive (key_of host full granted) full (sections host before [])).0 ≡ some p
    → (grants : List String) × (permission_signature host grants grants
        ≡ permission_signature host (effective host full granted) (effective host full granted))
      × (p ≡ host.prune full grants)
get-own_schema host before is_alive full granted p all h =
    get-hit host is_alive full granted (sections host before []) p all
      (sections-IsValid host before [] tt) h

-- The sections store within this bound.
abbrev pub StoresWithin : ℕ → List Section → Type 0
StoresWithin bound [] = Unit
StoresWithin bound (stores maxsize full granted ∷ rest) =
    (maxsize ≤ bound) × StoresWithin bound rest
StoresWithin bound (gets is_alive full granted ∷ rest) = StoresWithin bound rest
StoresWithin bound (clears ∷ rest) = StoresWithin bound rest

get-length :
    {P : Type 0} (host : Host P) (is_alive : ℕ → Bool) (key : Key) (full : ℕ)
    (entries : List (Entry P))
    → length (get host is_alive key full entries).1 ≤ length entries
unfolding get
get-length host is_alive key full entries = elim (Option-cases (find key entries)) [
  | inl f ↦ rw (f, get) (omega arith)
  | inr (e, f) ↦ elim (Bool-cases (is_source is_alive full e.ref)) [
    | inl s ↦
        rw (f, s, get)
          (omega
            (arith, length-append (erase key entries) (e ∷ []), length-erase_found key entries e f))
    | inr s ↦ rw (f, s, get) (omega (arith, length-erase key entries))
  ]
]

-- The cache never holds more entries than the largest bound under which it stored.
pub sections-length :
    {P : Type 0} (host : Host P) (bound : ℕ) (rest : List Section) (entries : List (Entry P))
    → StoresWithin bound rest
    → length entries ≤ bound
    → length (sections host rest entries) ≤ bound
unfolding sections section store
sections-length host bound [] entries w le = le
sections-length host bound (gets is_alive full granted ∷ rest) entries w le =
    sections-length host bound rest _ w
      (omega (arith, get-length host is_alive (key_of host full granted) full entries))
sections-length host bound (stores maxsize full granted ∷ rest) entries w le =
    sections-length host bound rest _ w.1 (
      omega (
        arith,
        length-evict maxsize (
            erase (key_of host full granted) entries
            ++ record {
              key = key_of host full granted;
              ref = safe_ref host full;
              pruned = host.prune full (effective host full granted);
            }
              ∷ []),
        w.0,
      ))
sections-length host bound (clears ∷ rest) entries w le =
    sections-length host bound rest [] w (omega arith)
