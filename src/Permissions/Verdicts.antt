-- ===== src/Permissions/Verdicts.antt =====
-- The verdicts of the model permissions: the codenames of their rows, and the labels of a schema.
use django_graphex.Permissions.Codes.{required-labels, rows-labels}
use django_graphex.Permissions.Holding.{holds_all, holds, granted_rows, holds-gather_rows}
use django_graphex.Common.{
  Bool, ◌&&◌, ◌≡◌, ◌≢◌, refl, inl, inr, String, Option, none, some, List, [], ◌∷◌, lookup,
  Option-cases, arith,
}
use django_graphex.Permissions.Kwargs.{action_value, Kwargs}
use django_graphex.Permissions.Policies.{
  User, Model, verdict, Maps, default_maps, get_required_permissions, gather_rows, forwarded, asked,
  has_model_permission, of_rows, has_subscribe_permission,
}
use django_graphex.Permissions.Labels.{required_perms_for}

-- What Django documents of `User.has_perms`: the user has each of the permissions.
abbrev pub IsEach : (User → List String → Bool) → (User → String → Bool) → Type 0
IsEach has_perms has_perm =
    (user : User) (perms : List String) → has_perms user perms ≡ holds_all (has_perm user) perms

module _ (has_perms : User → List String → Bool) (has_perm : User → String → Bool)
    (each : IsEach has_perms has_perm) where
  asked-holds :
      (user : User) (perms : Option (List String))
      → asked has_perms (some user) perms ≡ holds (has_perm user) perms
  asked-holds user none = refl
  asked-holds user (some perms) = each user perms

  pub has_subscribe_permission-rows :
      (maps : Maps) (user : User) (model : Model) (kwargs : Kwargs) (action : String)
      → forwarded kwargs ≡ action_value action
      → has_subscribe_permission has_perms maps (some user) (some model) kwargs
        ≡ verdict (
            user.is_authenticated
            && granted_rows (has_perm user) maps model (lookup action maps.subscribe_actions_map))
  unfolding has_subscribe_permission of_rows
  has_subscribe_permission-rows maps user model kwargs action f =
      elim (Option-cases (lookup action maps.subscribe_actions_map)) [
        | inl e ↦ ground (arith, f, e)
        | inr (rows, e) ↦ ground (
          arith,
          f,
          e,
          asked-holds user (gather_rows maps ("subscribe" ∷ rows) model []),
          holds-gather_rows (has_perm user) maps ("subscribe" ∷ rows) model [],
        )
      ]

  -- With the default mappings, the checks that run when a field is resolved agree with the labels
  -- that the schema is pruned by: an action other than `subscribe` is granted exactly to an
  -- authenticated user that holds every codename of the action's label, and a subscription to a
  -- non-empty kind of change exactly to one that holds every codename of that kind's label.
  pub permissions-labels :
      (user : User) (model : Model) (action : String) (kwargs : Kwargs)
      → (action ≢ "subscribe"
          → has_model_permission has_perms default_maps (some user) action (some model) kwargs ≡ (
              user.is_authenticated
              && holds (has_perm user) (required_perms_for model action none)))
        × (action ≢ ""
            → forwarded kwargs ≡ action_value action
            → has_subscribe_permission has_perms default_maps (some user) (some model) kwargs
              ≡ verdict (
                  user.is_authenticated
                  && holds (has_perm user) (required_perms_for model "subscribe" (some action))))
  unfolding has_model_permission has_subscribe_permission
  permissions-labels user model action kwargs = (
    λ other. ground (
      arith,
      asked-holds user (get_required_permissions default_maps action model),
      required-labels (has_perm user) model action other,
    ),
    λ given f. ground (
      arith,
      has_subscribe_permission-rows default_maps user model kwargs action f,
      rows-labels (has_perm user) model action given,
    ),
  )
