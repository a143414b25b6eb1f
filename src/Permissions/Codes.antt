-- ===== src/Permissions/Codes.antt =====
-- The rows of the default mappings against the labels of a schema.
use django_graphex.Permissions.Holding.{holds, holds_rows, granted_rows}
use Prim.Native.String.{◌++◌ as append}
use text.Mathlib.TextLemmas.{append-nil, append_assoc}
use django_graphex.Common.{
  Bool, true, false, ◌≡◌, ◌≢◌, refl, sym, ◌∙◌, ap, subst, inl, inr, String, none, some, [], ◌∷◌,
  str_eq, eq_iff, lookup, Bool-cases, arith,
}
use django_graphex.Permissions.Policies.{
  Model, default_maps, literal, app_label, model_name, format, get_required_permissions,
}
use django_graphex.Permissions.Labels.{codename, required_perms_for}

-- A codename by its template is the codename by its verb.
codename-format :
    (v : String) (model : Model)
    → codename model v
      ≡ format (app_label ∷ literal (append "." (append v "_")) ∷ model_name ∷ []) model
codename-format v model =
    ap (λ (t : String). append model.app_label t)
      (sym (
        append_assoc "." (append v "_") (append model.model_name "")
        ∙ ap (λ (t : String). append "." t)
            (append_assoc v "_" (append model.model_name "")
              ∙ ap (λ (t : String). append v (append "_" t)) (append-nil model.model_name))))

module _ (has_perm : String → Bool) (model : Model) where
  abbrev pub IsLabelled : String → Type 0
  IsLabelled action =
      holds has_perm (get_required_permissions default_maps action model)
      ≡ holds has_perm (required_perms_for model action none)

  at_action : (a action : String) → str_eq a action ≡ true → IsLabelled a → IsLabelled action
  at_action a action e h = subst IsLabelled ((eq_iff a action).0 e) h

  add_code : codename model "add" ≡ format (app_label ∷ literal ".add_" ∷ model_name ∷ []) model
  add_code = codename-format "add" model

  change_code :
      codename model "change" ≡ format (app_label ∷ literal ".change_" ∷ model_name ∷ []) model
  change_code = codename-format "change" model

  delete_code :
      codename model "delete" ≡ format (app_label ∷ literal ".delete_" ∷ model_name ∷ []) model
  delete_code = codename-format "delete" model

  view_code : codename model "view" ≡ format (app_label ∷ literal ".view_" ∷ model_name ∷ []) model
  view_code = codename-format "view" model

  same_create : IsLabelled "create"
  unfolding get_required_permissions required_perms_for
  same_create = rw (add_code, view_code) refl

  same_update : IsLabelled "update"
  unfolding get_required_permissions required_perms_for
  same_update = rw (change_code, view_code) refl

  same_delete : IsLabelled "delete"
  unfolding get_required_permissions required_perms_for
  same_delete = rw (delete_code, view_code) refl

  same_retrieve : IsLabelled "retrieve"
  unfolding get_required_permissions required_perms_for
  same_retrieve = rw view_code refl

  same_list : IsLabelled "list"
  unfolding get_required_permissions required_perms_for
  same_list = rw view_code refl

  -- No row and no label for any other action.
  same_other :
      (action : String)
      → action ≢ "subscribe"
      → str_eq "create" action ≡ false
      → str_eq "update" action ≡ false
      → str_eq "delete" action ≡ false
      → str_eq "retrieve" action ≡ false
      → str_eq "list" action ≡ false
      → IsLabelled action
  unfolding get_required_permissions required_perms_for
  same_other action other c u d r l =
      let before : str_eq "subscribe" action ≡ false =
        elim (Bool-cases (str_eq "subscribe" action)) [
          | inl e ↦ absurd (other (sym ((eq_iff "subscribe" action).0 e)))
          | inr e ↦ e
        ] in
      let after : str_eq action "subscribe" ≡ false =
        elim (Bool-cases (str_eq action "subscribe")) [
          | inl e ↦ absurd (other ((eq_iff action "subscribe").0 e))
          | inr e ↦ e
        ] in
      ground (arith, c, u, d, r, l, before, after)

  pub required-labels : (action : String) → action ≢ "subscribe" → IsLabelled action
  required-labels action other = elim (Bool-cases (str_eq "create" action)) [
    | inl e ↦ at_action "create" action e same_create
    | inr c ↦ (elim (Bool-cases (str_eq "update" action)) [
      | inl e ↦ at_action "update" action e same_update
      | inr u ↦ (elim (Bool-cases (str_eq "delete" action)) [
        | inl e ↦ at_action "delete" action e same_delete
        | inr d ↦ (elim (Bool-cases (str_eq "retrieve" action)) [
          | inl e ↦ at_action "retrieve" action e same_retrieve
          | inr r ↦ (elim (Bool-cases (str_eq "list" action)) [
            | inl e ↦ at_action "list" action e same_list
            | inr l ↦ same_other action other c u d r l
          ])
        ])
      ])
    ])
  ]

module _ (has_perm : String → Bool) (model : Model) where
  abbrev pub IsKindLabelled : String → Type 0
  IsKindLabelled action =
      granted_rows has_perm default_maps model (lookup action default_maps.subscribe_actions_map)
      ≡ holds has_perm (required_perms_for model "subscribe" (some action))

  at_kind : (a action : String) → str_eq a action ≡ true → IsKindLabelled a → IsKindLabelled action
  at_kind a action e h = subst IsKindLabelled ((eq_iff a action).0 e) h

  rows_create : IsKindLabelled "create"
  unfolding holds_rows required_perms_for
  rows_create = ground (arith, add_code has_perm model, view_code has_perm model)

  rows_update : IsKindLabelled "update"
  unfolding holds_rows required_perms_for
  rows_update = ground (arith, change_code has_perm model, view_code has_perm model)

  rows_delete : IsKindLabelled "delete"
  unfolding holds_rows required_perms_for
  rows_delete = ground (arith, delete_code has_perm model, view_code has_perm model)

  rows_all_actions : IsKindLabelled "all_actions"
  unfolding holds_rows required_perms_for
  rows_all_actions = ground (
    arith,
    add_code has_perm model,
    change_code has_perm model,
    delete_code has_perm model,
    view_code has_perm model,
  )

  rows_other :
      (action : String)
      → action ≢ ""
      → str_eq "create" action ≡ false
      → str_eq "update" action ≡ false
      → str_eq "delete" action ≡ false
      → str_eq "all_actions" action ≡ false
      → IsKindLabelled action
  unfolding required_perms_for
  rows_other action given c u d l =
      let empty : str_eq action "" ≡ false = elim (Bool-cases (str_eq action "")) [
        | inl e ↦ absurd (given ((eq_iff action "").0 e))
        | inr e ↦ e
      ] in
      ground (arith, c, u, d, l, empty)

  pub rows-labels : (action : String) → action ≢ "" → IsKindLabelled action
  rows-labels action given = elim (Bool-cases (str_eq "create" action)) [
    | inl e ↦ at_kind "create" action e rows_create
    | inr c ↦ (elim (Bool-cases (str_eq "update" action)) [
      | inl e ↦ at_kind "update" action e rows_update
      | inr u ↦ (elim (Bool-cases (str_eq "delete" action)) [
        | inl e ↦ at_kind "delete" action e rows_delete
        | inr d ↦ (elim (Bool-cases (str_eq "all_actions" action)) [
          | inl e ↦ at_kind "all_actions" action e rows_all_actions
          | inr l ↦ rows_other action given c u d l
        ])
      ])
    ])
  ]
