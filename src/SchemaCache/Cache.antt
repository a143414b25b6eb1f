-- ===== src/SchemaCache/Cache.antt =====
-- `_SignatureSchemaCache`: its entries, the oldest first, and the sections of
-- `pruned_schema_for` that each hold the entry lock.
use django_graphex.Common.{
  ℕ, Bool, true, ◌&&◌, String, Option, none, some, List, [], ◌∷◌, ◌++◌, length, str_eq, ◌==◌, leb,
  if◌then◌else◌,
}
use django_graphex.SchemaCache.Signature.{Host, permission_signature, signature_grants}

abbrev pub Key : Type 0
Key = ℕ × String

-- The key, the weak reference to the full schema, and the pruned one.
pub record Entry (P : Type 0) : Type 0 where
  pub key : Key
  pub ref : Option ℕ
  pub pruned : P

abbrev pub key_eq : Key → Key → Bool
key_eq (a, s) (b, t) = (a == b) && str_eq s t

module _ {P : Type 0} where
  -- `self._entries.get(key)`
  abbrev pub find : Key → List (Entry P) → Option (Entry P)
  find key [] = none
  find key (e ∷ entries) = let rest = find key entries in if key_eq e.key key then some e else rest

  -- `del self._entries[key]`
  abbrev pub erase : Key → List (Entry P) → List (Entry P)
  erase key [] = []
  erase key (e ∷ entries) =
      let rest = erase key entries in if key_eq e.key key then rest else e ∷ rest

  -- `while len(self._entries) > maxsize: self._entries.popitem(last=False)`
  unfoldable pub evict_if_needed : ℕ → List (Entry P) → List (Entry P)
  evict_if_needed maxsize [] = []
  evict_if_needed maxsize (e ∷ entries) =
      let rest = evict_if_needed maxsize entries in
      if leb (length (e ∷ entries)) maxsize then e ∷ entries else rest

-- `_resolve_maxsize`
unfoldable pub resolve_maxsize : Option ℕ → ℕ
resolve_maxsize none = 64
resolve_maxsize (some configured) = configured

-- The instance's bound, or else the setting's.
abbrev pub bound_of : Option ℕ → Option ℕ → ℕ
bound_of none setting = resolve_maxsize setting
bound_of (some maxsize) setting = maxsize

-- Whether a reference belongs to `full`; `is_alive` is what the collector has left.
abbrev pub is_source : (ℕ → Bool) → ℕ → Option ℕ → Bool
is_source is_alive full none = true
is_source is_alive full (some source) = is_alive source && (source == full)

module _ {P : Type 0} (host : Host P) where
  -- `_safe_ref`
  abbrev pub safe_ref : ℕ → Option ℕ
  safe_ref full = if host.is_referenceable full then some full else none

  -- The grants that matter, and the key they give.
  abbrev pub effective : ℕ → List String → List String
  effective full granted = signature_grants host full granted (host.gdx_label_set full)

  abbrev pub key_of : ℕ → List String → Key
  key_of full granted = (
    host.address full,
    permission_signature host (effective full granted) (effective full granted),
  )

  live_or_stale :
      (ℕ → Bool) → Key → ℕ → List (Entry P) → Option (Entry P) → Option P × List (Entry P)
  live_or_stale is_alive key full entries none = (none, entries)
  live_or_stale is_alive key full entries (some e) =
      if is_source is_alive full e.ref
      then (some e.pruned, erase key entries ++ e ∷ [])
      else (none, erase key entries)

  -- `_get`: `_live_entry`, which drops a stale entry, and `move_to_end` on a hit. The second check,
  -- under the build lock, is the same.
  unfoldable pub get : (ℕ → Bool) → Key → ℕ → List (Entry P) → Option P × List (Entry P)
  unfolding live_or_stale
  get is_alive key full entries = live_or_stale is_alive key full entries (find key entries)

  -- A fresh schema is stored last, and the oldest entries go.
  unfoldable pub store : ℕ → Key → ℕ → P → List (Entry P) → List (Entry P)
  store maxsize key full built entries =
      evict_if_needed maxsize
        (erase key entries ++ record { key = key; ref = safe_ref full; pruned = built } ∷ [])

-- What is served: the full schema, or a pruned one and whether it was built for this call.
pub data Served (P : Type 0) : Type 0 where
  full_schema : Served P
  from_cache : P → Served P
  built_now : P → Served P

pub record User : Type 0 where
  pub is_active : Bool
  pub is_superuser : Bool
  pub all_permissions : List String

module _ {P : Type 0} (host : Host P) (is_alive : ℕ → Bool) (maxsize : ℕ) where
  abbrev pub build_pruned :
      Key → ℕ → List String → Option P × List (Entry P) → Served P × List (Entry P)
  build_pruned key full grants (some pruned, entries) = (from_cache pruned, entries)
  build_pruned key full grants (none, entries) =
      let built = host.prune full grants in
      (built_now built, store host maxsize key full built entries)

  abbrev pub check_again :
      Key → ℕ → List String → Option P × List (Entry P) → Served P × List (Entry P)
  check_again key full grants (some pruned, entries) = (from_cache pruned, entries)
  check_again key full grants (none, entries) =
      build_pruned key full grants (get host is_alive key full entries)

  -- `pruned_schema_for`, of a caller with no other thread in between.
  unfoldable pub pruned_schema_for : User → ℕ → List (Entry P) → Served P × List (Entry P)
  pruned_schema_for user full entries =
      if user.is_active && user.is_superuser
      then (full_schema, entries)
      else check_again (key_of host full user.all_permissions) full
          (effective host full user.all_permissions)
          (get host is_alive (key_of host full user.all_permissions) full entries)

-- The atomic sections of all threads, in the order in which they take the lock.
pub data Section : Type 0 where
  gets : (ℕ → Bool) → ℕ → List String → Section
  stores : ℕ → ℕ → List String → Section
  clears : Section

unfoldable pub section : {P : Type 0} → Host P → Section → List (Entry P) → List (Entry P)
section host (gets is_alive full granted) entries =
    (get host is_alive (key_of host full granted) full entries).1
section host (stores maxsize full granted) entries =
    store host maxsize (key_of host full granted) full
      (host.prune full (effective host full granted)) entries
section host clears entries = []

unfoldable pub sections : {P : Type 0} → Host P → List Section → List (Entry P) → List (Entry P)
sections host [] entries = entries
sections host (s ∷ rest) entries = sections host rest (section host s entries)
