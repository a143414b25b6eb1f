-- ===== src/SchemaCache/Entries.antt =====
-- Entries that are what they claim to be, and what erasing, moving and evicting does to them.
use django_graphex.Common.{
  ℕ, suc, ◌≤◌, ◌≡◌, refl, subst, true, String, none, some, List, [], ◌∷◌, ◌++◌, length, arith, leb,
  Bool-cases, inl, inr,
}
use django_graphex.SchemaCache.Signature.{Host, permission_signature}
use django_graphex.SchemaCache.Cache.{Key, Entry, key_eq, find, erase, evict_if_needed, safe_ref}

-- The entry was built from a full schema that it refers to, for grants with the key's signature.
abbrev pub IsValidEntry : {P : Type 0} → Host P → Entry P → Type 0
IsValidEntry host e =
    (full : ℕ) × (grants : List String) × (e.key
      ≡ (host.address full, permission_signature host grants grants))
    × (e.ref ≡ safe_ref host full)
    × (e.pruned ≡ host.prune full grants)

abbrev pub IsValid : {P : Type 0} → Host P → List (Entry P) → Type 0
IsValid host [] = Unit
IsValid host (e ∷ entries) = IsValidEntry host e × IsValid host entries

module _ {P : Type 0} (host : Host P) where
  pub IsValid-append :
      (xs ys : List (Entry P)) → IsValid host xs → IsValid host ys → IsValid host (xs ++ ys)
  IsValid-append [] ys v w = w
  IsValid-append (x ∷ xs) ys v w = (v.0, IsValid-append xs ys v.1 w)

  pub IsValid-erase :
      (key : Key) (xs : List (Entry P)) → IsValid host xs → IsValid host (erase key xs)
  IsValid-erase key [] v = tt
  IsValid-erase key (x ∷ xs) v = elim (Bool-cases (key_eq x.key key)) [
    | inl e ↦ rw e (IsValid-erase key xs v.1)
    | inr e ↦ rw e (v.0, IsValid-erase key xs v.1)
  ]

  pub IsValid-evict :
      (maxsize : ℕ) (xs : List (Entry P))
      → IsValid host xs
      → IsValid host (evict_if_needed maxsize xs)
  unfolding evict_if_needed
  IsValid-evict maxsize [] v = tt
  IsValid-evict maxsize (x ∷ xs) v = elim (Bool-cases (leb (length (x ∷ xs)) maxsize)) [
    | inl e ↦ rw e v
    | inr e ↦ rw e (IsValid-evict maxsize xs v.1)
  ]

  the_first : (x e : Entry P) → some x ≡ some e → x ≡ e
  the_first x e p = cc p

  pub IsValid-find :
      (key : Key) (xs : List (Entry P)) (e : Entry P)
      → IsValid host xs
      → find key xs ≡ some e
      → IsValidEntry host e × (key_eq e.key key ≡ true)
  IsValid-find key [] e v f = absurd (cc f)
  IsValid-find key (x ∷ xs) e v f = elim (Bool-cases (key_eq x.key key)) [
    | inl same ↦
        subst (λ (y : Entry P). IsValidEntry host y × (key_eq y.key key ≡ true))
          (the_first x e (rw same at f)) (v.0, same)
    | inr other ↦ IsValid-find key xs e v.1 (rw other at f)
  ]

pub length-evict :
    {P : Type 0} (maxsize : ℕ) (xs : List (Entry P)) → length (evict_if_needed maxsize xs) ≤ maxsize
unfolding evict_if_needed
length-evict maxsize [] = omega arith
length-evict maxsize (x ∷ xs) = ground (arith, length-evict maxsize xs)

pub length-erase :
    {P : Type 0} (key : Key) (xs : List (Entry P)) → length (erase key xs) ≤ length xs
length-erase key [] = omega arith
length-erase key (x ∷ xs) = ground (arith, length-erase key xs)

-- Erasing an entry that is there makes room for it.
pub length-erase_found :
    {P : Type 0} (key : Key) (xs : List (Entry P)) (e : Entry P)
    → find key xs ≡ some e
    → suc (length (erase key xs)) ≤ length xs
length-erase_found key [] e f = absurd (cc f)
length-erase_found key (x ∷ xs) e f =
    ground (arith, length-erase key xs, length-erase_found key xs e)

pub find-erase : {P : Type 0} (key : Key) (xs : List (Entry P)) → find key (erase key xs) ≡ none
find-erase key [] = refl
find-erase key (x ∷ xs) = ground (arith, find-erase key xs)

pub find-append :
    {P : Type 0} (key : Key) (xs : List (Entry P)) (e : Entry P)
    → key_eq e.key key ≡ true
    → find key xs ≡ none
    → find key (xs ++ e ∷ []) ≡ some e
find-append key [] e same f = rw same refl
find-append key (x ∷ xs) e same f = ground (arith, find-append key xs e same)

-- The entry that is stored last is found, and outlives the eviction if anything does.
pub find-evict_last :
    {P : Type 0} (maxsize : ℕ) (key : Key) (xs : List (Entry P)) (e : Entry P)
    → 1 ≤ maxsize
    → key_eq e.key key ≡ true
    → find key xs ≡ none
    → find key (evict_if_needed maxsize (xs ++ e ∷ [])) ≡ some e
unfolding evict_if_needed
find-evict_last maxsize key [] e pos same f = ground arith
find-evict_last maxsize key (x ∷ xs) e pos same f =
    ground (arith, find-append key xs e same, find-evict_last maxsize key xs e pos same)
