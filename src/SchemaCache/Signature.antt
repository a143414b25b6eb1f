-- ===== src/SchemaCache/Signature.antt =====
-- `permission_signature` and `signature_grants`. A frozenset of texts is a list of them.
use Prim.Native.String.{compare, ◌++◌ as append}
use text.Mathlib.Text.{is_le}
use django_graphex.Common.{ℕ, Bool, false, ◌||◌, String, List, [], ◌∷◌, contains, if◌then◌else◌}

-- Full schemas are objects, told apart by a number that no two of them ever share. `address` is an
-- object's `id`, which a later object can take over; `prune` is the schema pruner, and `sha256_hex`
-- the digest of a text.
pub record Host (P : Type 0) : Type 0 where
  pub address : ℕ → ℕ
  pub is_referenceable : ℕ → Bool
  pub gdx_label_set : ℕ → List String
  pub flat_gfk_marks : ℕ → List Bool
  pub prune : ℕ → List String → P
  pub sha256_hex : String → String

-- `a & b`
unfoldable pub intersection : List String → List String → List String
intersection [] b = []
intersection (x ∷ a) b = let rest = intersection a b in if contains x b then x ∷ rest else rest

insert : String → List String → List String
insert x [] = x ∷ []
insert x (y ∷ sorted) =
    let rest = insert x sorted in if is_le (compare x y) then x ∷ y ∷ sorted else y ∷ rest

unfoldable pub sort : List String → List String
unfolding insert
sort [] = []
sort (x ∷ xs) = insert x (sort xs)

unfoldable pub join_lines : List String → String
join_lines [] = ""
join_lines (x ∷ []) = x
join_lines (x ∷ xs) = append x (append "\n" (join_lines xs))

module _ {P : Type 0} (host : Host P) where
  -- `permission_signature`
  unfoldable pub permission_signature : List String → List String → String
  permission_signature perms label_set =
      host.sha256_hex (join_lines (sort (intersection perms label_set)))

  any_true : List Bool → Bool
  any_true [] = false
  any_true (b ∷ bs) = b || any_true bs

  -- `has_flat_gfk_fallback`: the marks are those of the types in the schema's type map.
  unfoldable pub has_flat_gfk_fallback : ℕ → Bool
  unfolding any_true
  has_flat_gfk_fallback full = any_true (host.flat_gfk_marks full)

  -- `signature_grants`
  unfoldable pub signature_grants : ℕ → List String → List String → List String
  signature_grants full granted label_set =
      if has_flat_gfk_fallback full then granted else intersection granted label_set
