-- ===== src/Permissions/Holding.antt =====
-- Who holds the codenames of a row, of several rows, and of a sorted set of them.
use Prim.Native.Nat.{Ordering}
use Prim.Native.String.{compare}
use text.Mathlib.TextEquality.{path_by_compare}
use django_graphex.Common.{
  Bool, true, false, ◌&&◌, ◌≡◌, refl, ◌⊎◌, inl, inr, String, Option, none, some, List, [], ◌∷◌,
  Option-cases, arith,
}
use django_graphex.Permissions.Policies.{
  Model, Maps, insert_sorted, update, get_required_permissions, gather_rows,
}

abbrev pub holds_all : (String → Bool) → List String → Bool
holds_all has_perm [] = true
holds_all has_perm (p ∷ perms) = has_perm p && holds_all has_perm perms

-- The user holds each of these; nobody holds what an unknown action requires.
abbrev pub holds : (String → Bool) → Option (List String) → Bool
holds has_perm none = false
holds has_perm (some perms) = holds_all has_perm perms

-- The user holds what each row requires; a row that is missing is held by nobody.
unfoldable pub holds_rows : (String → Bool) → Maps → List String → Model → Bool
unfolding get_required_permissions
holds_rows has_perm maps [] model = true
holds_rows has_perm maps (row ∷ rows) model =
    holds has_perm (get_required_permissions maps row model) && holds_rows has_perm maps rows model

-- The user holds what the `subscribe` row and these rows require; no rows are no known kind.
abbrev pub granted_rows : (String → Bool) → Maps → Model → Option (List String) → Bool
granted_rows has_perm maps model none = false
granted_rows has_perm maps model (some rows) = holds_rows has_perm maps ("subscribe" ∷ rows) model

order-cases :
    (s t : String)
    → (compare s t ≡ Ordering.lt) ⊎ ((compare s t ≡ Ordering.eq) ⊎ (compare s t ≡ Ordering.gt))
order-cases s t = cases (compare s t)
  where
    cases : (o : Ordering) → (o ≡ Ordering.lt) ⊎ ((o ≡ Ordering.eq) ⊎ (o ≡ Ordering.gt))
    cases Ordering.lt = inl refl
    cases Ordering.eq = inr (inl refl)
    cases Ordering.gt = inr (inr refl)

module _ (has_perm : String → Bool) where
  holds_all-insert_sorted :
      (s : String) (perms : List String)
      → holds_all has_perm (insert_sorted s perms) ≡ (has_perm s && holds_all has_perm perms)
  unfolding insert_sorted
  holds_all-insert_sorted s [] = refl
  holds_all-insert_sorted s (t ∷ perms) = elim (order-cases s t) [
    | inl e ↦ ground (arith, e)
    | inr (inl e) ↦ let same = path_by_compare s t e in ground (arith, e, same)
    | inr (inr e) ↦ ground (arith, e, holds_all-insert_sorted s perms)
  ]

  holds_all-update :
      (required perms : List String)
      → holds_all has_perm (update required perms)
        ≡ (holds_all has_perm required && holds_all has_perm perms)
  unfolding update
  holds_all-update [] perms = refl
  holds_all-update (s ∷ required) perms =
      ground
        (arith, holds_all-update required (insert_sorted s perms), holds_all-insert_sorted s perms)

  pub holds-gather_rows :
      (maps : Maps) (rows : List String) (model : Model) (perms : List String)
      → holds has_perm (gather_rows maps rows model perms)
        ≡ (holds_rows has_perm maps rows model && holds_all has_perm perms)
  unfolding gather_rows holds_rows
  holds-gather_rows maps [] model perms = refl
  holds-gather_rows maps (row ∷ rows) model perms =
      elim (Option-cases (get_required_permissions maps row model)) [
        | inl e ↦ ground (arith, e)
        | inr (required, e) ↦ ground (
          arith,
          e,
          holds-gather_rows maps rows model (update required perms),
          holds_all-update required perms,
        )
      ]
