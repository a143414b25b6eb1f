-- ===== src/Permissions/Tests.antt =====
-- A user that holds every codename but one, and a check that spells its arguments out.
use django_graphex.Common.{
  Bool, true, false, not, ◌&&◌, ◌≡◌, ◌≢◌, refl, String, none, some, List, [], ◌∷◌, str_eq, lookup,
}
use django_graphex.Permissions.Kwargs.{
  none_value, action_value, other_value, Kwargs, positional_or_keyword, accepts, signature,
  supported_kwargs,
}
use django_graphex.Permissions.Policies.{
  User, Model, verdict, type_error, Policy, has_action_permission, default_maps,
  has_model_permission, has_subscribe_permission,
}
use django_graphex.Permissions.Labels.{required_perms_for}
use django_graphex.Permissions.Narrowing.{has_action_permission-verdict}
use django_graphex.Permissions.Holding.{holds_all, holds}
use django_graphex.Permissions.Verdicts.{permissions-labels}

abbrev ann : User
ann = record {
  is_authenticated = true;
  is_active = true;
  is_staff = false;
  is_superuser = false;
  name = "ann";
}

abbrev thing : Model
thing = record { app_label = "app"; model_name = "thing" }

abbrev has_perm : User → String → Bool
has_perm user perm = not (str_eq perm "app.delete_thing")

abbrev has_perms : User → List String → Bool
has_perms user perms = holds_all (has_perm user) perms

-- It takes `data` and no other extra.
abbrev narrow : Policy
narrow = record {
  extras = record { name = "data"; kind = positional_or_keyword; has_default = true } ∷ [];
  has_permission = λ info action model kwargs. str_eq action "create";
}

abbrev nested_write : Kwargs
nested_write = ("data", other_value) ∷ ("nested_parent", other_value) ∷ []

has_action_permission-verdict_example :
    (has_action_permission narrow "create" none none nested_write
      ≡ verdict (
          narrow.has_permission none "create" none
            (supported_kwargs (signature narrow.extras) nested_write)))
    × ((name : String)
        → accepts narrow.extras name ≡ true
        → lookup name (supported_kwargs (signature narrow.extras) nested_write)
          ≡ lookup name nested_write)
has_action_permission-verdict_example =
    has_action_permission-verdict narrow "create" none none nested_write refl refl

abbrev creating : String
creating = "create"

permissions-labels_example :
    (creating ≢ "subscribe"
      → has_model_permission has_perms default_maps
          (some ann)
          creating
          (some thing)
          (("subscription_action", action_value creating) ∷ [])
        ≡ (true && holds (has_perm ann) (required_perms_for thing creating none)))
    × (creating ≢ ""
        → action_value creating ≡ action_value creating
        → has_subscribe_permission has_perms default_maps
            (some ann)
            (some thing)
            (("subscription_action", action_value creating) ∷ [])
          ≡ verdict
              (true && holds (has_perm ann) (required_perms_for thing "subscribe" (some creating))))
permissions-labels_example =
    permissions-labels has_perms has_perm (λ user perms. refl) ann thing creating
      (("subscription_action", action_value creating) ∷ [])

denied :
    has_subscribe_permission has_perms default_maps
      (some ann)
      (some thing)
      (("subscription_action", action_value "all_actions") ∷ [])
    ≡ verdict false
unfolding has_subscribe_permission
denied = refl

granted :
    has_subscribe_permission has_perms default_maps
      (some ann)
      (some thing)
      (("subscription_action", action_value "create") ∷ [])
    ≡ verdict true
unfolding has_subscribe_permission
granted = refl

-- A caller that forwards an `action` of None meets a TypeError in place of the generic check.
collides :
    has_subscribe_permission has_perms default_maps
      (some ann)
      (some thing)
      (("action", none_value) ∷ [])
    ≡ type_error
unfolding has_subscribe_permission
collides = refl
