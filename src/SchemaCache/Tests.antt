-- ===== src/SchemaCache/Tests.antt =====
-- Two full schemas, the second at the address of the first, and users with permissions.
use django_graphex.Common.{
  ℕ, ◌≤◌, ◌≡◌, ◌⊎◌, refl, Bool, true, false, String, some, List, [], ◌∷◌, length, arith, ◌==◌,
}
use django_graphex.SchemaCache.Signature.{
  Host, permission_signature, signature_grants, has_flat_gfk_fallback, intersection, sort,
  join_lines,
}
use django_graphex.SchemaCache.Cache.{
  key_of, get, effective, from_cache, built_now, User, pruned_schema_for, Section, gets, stores,
  sections, section, store, evict_if_needed,
}
use django_graphex.SchemaCache.Safety.{get-own_schema, sections-length}
use django_graphex.SchemaCache.Hits.{pruned_schema_for-again}

-- A pruned schema is told by its full schema and its grants, and a text is its own digest.
abbrev host : Host (ℕ × List String)
host = record {
  address = λ full. 7;
  is_referenceable = λ full. true;
  gdx_label_set = λ full. "app.view" ∷ "app.add" ∷ [];
  flat_gfk_marks = λ full. [];
  prune = λ full grants. (full, grants);
  sha256_hex = λ text. text;
}

abbrev alive : ℕ → Bool
alive full = true

abbrev first_dead : ℕ → Bool
first_dead full = full == 2

abbrev before : List Section
before =
    stores 2 1 ("app.view" ∷ [])
    ∷ gets first_dead 2 ("app.view" ∷ [])
    ∷ stores 2 2 ("app.view" ∷ [])
    ∷ []

abbrev pruned : ℕ × List String
pruned = (2, "app.view" ∷ [])

hit : (get host alive (key_of host 2 ("app.view" ∷ [])) 2 (sections host before [])).0 ≡ some pruned
unfolding get sections section store evict_if_needed permission_signature signature_grants
    has_flat_gfk_fallback intersection sort join_lines
hit = refl

get-own_schema_example :
    (grants : List String) × (permission_signature host grants grants
      ≡ permission_signature host
          (effective host 2 ("app.view" ∷ []))
          (effective host 2 ("app.view" ∷ [])))
    × (pruned ≡ host.prune 2 grants)
get-own_schema_example = get-own_schema host before alive 2 ("app.view" ∷ []) pruned (λ u. refl) hit

sections-length_example : length (sections host before []) ≤ 2
sections-length_example =
    sections-length host 2 before [] (omega arith, (omega arith, tt)) (omega arith)

abbrev user : User
user = record { is_active = true; is_superuser = false; all_permissions = "app.add" ∷ [] }

pruned_schema_for-again_example :
    (p : ℕ × List String) × (((pruned_schema_for host alive 1 user 3 []).0 ≡ from_cache p)
      ⊎ ((pruned_schema_for host alive 1 user 3 []).0 ≡ built_now p))
    × ((pruned_schema_for host alive 1 user 3 (pruned_schema_for host alive 1 user 3 []).1).0
        ≡ from_cache p)
pruned_schema_for-again_example =
    pruned_schema_for-again host alive alive 1 3 user [] (omega arith) refl refl refl refl
