-- ===== src/Permissions/Policies.antt =====
-- The permission classes.
use Prim.Native.Nat.{Ordering}
use Prim.Native.String.{◌++◌ as append, compare}
use django_graphex.Common.{
  Bool, true, false, ◌&&◌, String, Option, none, some, List, [], ◌∷◌, map, contains, lookup,
  if◌then◌else◌,
}
use django_graphex.Permissions.Kwargs.{
  Value, none_value, action_value, other_value, Kwargs, var_keyword, Parameter, supported_kwargs,
  signature, binds,
}

pub record User : Type 0 where
  pub is_authenticated : Bool
  pub is_active : Bool
  pub is_staff : Bool
  pub is_superuser : Bool
  pub name : String

-- `_user(info)`
abbrev pub Info : Type 0
Info = Option User

-- `model._meta`, of a model that is not None
pub record Model : Type 0 where
  pub app_label : String
  pub model_name : String

-- What a check comes to.
pub data Outcome : Type 0 where
  verdict : Bool → Outcome
  type_error : Outcome

-- `_is_authenticated`
unfoldable pub is_authenticated : Info → Bool
is_authenticated none = false
is_authenticated (some user) = user.is_authenticated

-- `_is_admin`
unfoldable pub is_admin : Info → Bool
is_admin none = false
is_admin (some user) = user.is_active && user.is_staff && user.is_superuser

-- `READ_ACTIONS`
abbrev pub read_actions : List String
read_actions = "retrieve" ∷ "list" ∷ "subscribe" ∷ []

-- A class: the parameters of its `has_permission` behind the four, and its body.
pub record Policy : Type 0 where
  pub extras : List Parameter
  pub has_permission : Info → String → Option Model → Kwargs → Bool

abbrev pub any_kwargs : List Parameter
any_kwargs = record { name = "kwargs"; kind = var_keyword; has_default = true } ∷ []

-- `BasePermission`, and `AllowAny`
abbrev pub allow_any : Policy
allow_any = record { extras = any_kwargs; has_permission = λ info action model kwargs. true }

-- `IsAuthenticated`
unfoldable pub require_authenticated : Policy
unfolding is_authenticated
require_authenticated = record {
  extras = any_kwargs;
  has_permission = λ info action model kwargs. is_authenticated info;
}

-- `IsAdmin`
unfoldable pub require_admin : Policy
unfolding is_admin
require_admin = record {
  extras = any_kwargs;
  has_permission = λ info action model kwargs. is_admin info;
}

-- `IsAuthenticatedOrReadOnly`
unfoldable pub authenticated_or_read_only : Policy
unfolding is_authenticated
authenticated_or_read_only = record {
  extras = any_kwargs;
  has_permission = λ info action model kwargs.
      if contains action read_actions then true else is_authenticated info;
}

-- `IsAdminOrReadOnly`
unfoldable pub admin_or_read_only : Policy
unfolding is_admin
admin_or_read_only = record {
  extras = any_kwargs;
  has_permission =
      λ info action model kwargs. if contains action read_actions then true else is_admin info;
}

-- A call of `has_permission`
abbrev pub call : Policy → Info → String → Option Model → Kwargs → Outcome
call policy info action model kwargs =
    if binds policy.extras kwargs
    then verdict (policy.has_permission info action model kwargs)
    else type_error

-- `has_create_permission` and its siblings, of `BasePermission`: one for each action.
unfoldable pub has_action_permission : Policy → String → Info → Option Model → Kwargs → Outcome
unfolding supported_kwargs
has_action_permission policy action info model kwargs =
    call policy info action model (supported_kwargs (signature policy.extras) kwargs)

-- A piece of a template for `str.format`.
pub data Piece : Type 0 where
  literal : String → Piece
  app_label : Piece
  model_name : Piece

abbrev pub format : List Piece → Model → String
format [] model = ""
format (literal s ∷ pieces) model = append s (format pieces model)
format (app_label ∷ pieces) model = append model.app_label (format pieces model)
format (model_name ∷ pieces) model = append model.model_name (format pieces model)

-- `sorted` of a set, built by one insertion for each of its members.
unfoldable pub insert_sorted : String → List String → List String
insert_sorted s [] = s ∷ []
insert_sorted s (t ∷ sorted) =
    let rest = insert_sorted s sorted in
    elim (compare s t) [
      | Ordering.lt ↦ s ∷ t ∷ sorted
      | Ordering.eq ↦ t ∷ sorted
      | Ordering.gt ↦ t ∷ rest
    ]

unfoldable pub update : List String → List String → List String
unfolding insert_sorted
update [] perms = perms
update (s ∷ required) perms = update required (insert_sorted s perms)

abbrev verb : String → List Piece
verb name = app_label ∷ literal name ∷ model_name ∷ []

-- A subclass of `DjangoModelPermissions`: its two mappings.
pub record Maps : Type 0 where
  pub perms_map : List (String × List (List Piece))
  pub subscribe_actions_map : List (String × List String)

abbrev pub default_maps : Maps
default_maps = record {
  perms_map =
      ("create", verb ".add_" ∷ verb ".view_" ∷ [])
      ∷ ("update", verb ".change_" ∷ verb ".view_" ∷ [])
      ∷ ("delete", verb ".delete_" ∷ verb ".view_" ∷ [])
      ∷ ("retrieve", verb ".view_" ∷ [])
      ∷ ("list", verb ".view_" ∷ [])
      ∷ ("subscribe", verb ".view_" ∷ [])
      ∷ [];
  subscribe_actions_map =
      ("create", "create" ∷ [])
      ∷ ("update", "update" ∷ [])
      ∷ ("delete", "delete" ∷ [])
      ∷ ("all_actions", "create" ∷ "update" ∷ "delete" ∷ [])
      ∷ [];
}

unfoldable pub get_required_permissions : Maps → String → Model → Option (List String)
get_required_permissions maps action model = elim (lookup action maps.perms_map) [
  | none ↦ none
  | some templates ↦ some (map (λ (template : List Piece). format template model) templates)
]

-- The codenames of the rows, with those gathered before; none where a row is missing.
unfoldable pub gather_rows : Maps → List String → Model → List String → Option (List String)
unfolding get_required_permissions update
gather_rows maps [] model perms = some perms
gather_rows maps (row ∷ rows) model perms = elim (get_required_permissions maps row model) [
  | none ↦ none
  | some required ↦ gather_rows maps rows model (update required perms)
]

-- The action that the subscription observes; a value that is no text is in no mapping.
abbrev pub forwarded : Kwargs → Value
forwarded kwargs = elim (lookup "subscription_action" kwargs) [
  | some value ↦ value
  | none ↦ (elim (lookup "action" kwargs) [ some value ↦ value | none ↦ none_value ])
]

module _ (has_perms : User → List String → Bool) where
  abbrev pub asked : Info → Option (List String) → Bool
  asked (some user) (some perms) = has_perms user perms
  asked info perms = false

  -- `DjangoModelPermissions.has_permission`
  unfoldable pub has_model_permission : Maps → Info → String → Option Model → Kwargs → Bool
  unfolding is_authenticated get_required_permissions
  has_model_permission maps info action none kwargs = false
  has_model_permission maps info action (some model) kwargs =
      is_authenticated info && asked info (get_required_permissions maps action model)

  unfoldable pub model_policy : Maps → Policy
  unfolding has_model_permission
  model_policy maps = record { extras = any_kwargs; has_permission = has_model_permission maps }

  unfoldable pub of_rows : Maps → Info → Model → Option (List String) → Outcome
  unfolding gather_rows
  of_rows maps info model none = verdict false
  of_rows maps info model (some rows) =
      verdict (asked info (gather_rows maps ("subscribe" ∷ rows) model []))

  -- `DjangoModelPermissions.has_subscribe_permission`
  unfoldable pub has_subscribe_permission : Maps → Info → Option Model → Kwargs → Outcome
  unfolding is_authenticated has_action_permission model_policy of_rows
  has_subscribe_permission maps info none kwargs = verdict false
  has_subscribe_permission maps info (some model) kwargs =
      if is_authenticated info
      then (elim (forwarded kwargs) [
        | none_value ↦
            has_action_permission (model_policy maps) "subscribe" info (some model) kwargs
        | action_value action ↦ of_rows maps info model (lookup action maps.subscribe_actions_map)
        | other_value ↦ verdict false
      ])
      else verdict false
