-- ===== src/Security/Middleware.antt =====
-- `DisableIntrospectionMiddleware` and `AuthenticatedFieldsMiddleware`.
use django_graphex.Common.{
  Bool, true, false, not, ◌&&◌, ◌||◌, String, Option, none, some, List, [], ◌∷◌, contains,
  if◌then◌else◌,
}

pub record Settings : Type 0 where
  pub debug : Bool
  pub allow_introspection : Bool
  pub introspection_allow_superuser : Bool
  pub protected_fields : Option (List String)

pub record User : Type 0 where
  pub is_active : Bool
  pub is_superuser : Bool
  pub is_authenticated : Bool

-- What the middlewares read of graphql-core's resolve info. `nested` is a path with a previous
-- segment; the schema's protected fields stand in its extensions or in its legacy attribute.
pub record Info : Type 0 where
  pub field_name : String
  pub nested : Bool
  pub user : Option User
  pub gdx_protected_fields : Option (List String)
  pub gde_protected_fields : Option (List String)

-- The extensions of the error that a middleware raises.
pub record Refusal : Type 0 where
  pub message : String
  pub code : String
  pub status_code : String

pub data Resolved {ℓ} (V : Type ℓ) : Type ℓ where
  value : V → Resolved V
  refused : Refusal → Resolved V

abbrev pub is_introspection : String → Bool
is_introspection name = contains name ("__schema" ∷ "__type" ∷ [])

-- `DisableIntrospectionMiddleware._allowed`
unfoldable pub allowed : Settings → Info → Bool
allowed settings info =
    if settings.allow_introspection
    then true
    else if settings.introspection_allow_superuser
    then elim info.user [ none ↦ false | some user ↦ user.is_active && user.is_superuser ]
    else false

-- `DisableIntrospectionMiddleware.resolve`
unfoldable pub disable_introspection : {V : Type 0} → Settings → Info → Resolved V → Resolved V
disable_introspection settings info next =
    if is_introspection info.field_name && not (allowed settings info)
    then refused (record {
      message = "GraphQL introspection is disabled.";
      code = "INTROSPECTION_DISABLED";
      status_code = "403";
    })
    else next

abbrev pub or_empty : Option (List String) → List String
or_empty none = []
or_empty (some names) = names

-- `get_protected_fields`
unfoldable pub get_protected_fields : Settings → Info → List String
get_protected_fields settings info = elim info.gdx_protected_fields [
  | some names ↦ names
  | none ↦ elim info.gde_protected_fields [
    | some names ↦ names
    | none ↦ or_empty settings.protected_fields
  ]
]

abbrev pub is_authenticated : Option User → Bool
is_authenticated none = false
is_authenticated (some user) = user.is_authenticated

-- `AuthenticatedFieldsMiddleware.resolve`
unfoldable pub authenticated_fields : {V : Type 0} → Settings → Info → Resolved V → Resolved V
authenticated_fields settings info next =
    if info.nested
    then next
    else if not (contains info.field_name (get_protected_fields settings info))
    then next
    else if not (is_authenticated info.user)
    then refused (record {
      message = "Authentication required.";
      code = "UNAUTHENTICATED";
      status_code = "401";
    })
    else next

pub data Middleware : Type 0 where
  disables_introspection : Middleware
  authenticates_fields : Middleware

-- A field behind a chain of the two, the outermost first.
unfoldable pub resolve : {V : Type 0} → Settings → Info → List Middleware → V → Resolved V
resolve settings info [] v = value v
resolve settings info (disables_introspection ∷ chain) v =
    disable_introspection settings info (resolve settings info chain v)
resolve settings info (authenticates_fields ∷ chain) v =
    authenticated_fields settings info (resolve settings info chain v)

is_disabling : Middleware → Bool
is_disabling disables_introspection = true
is_disabling authenticates_fields = false

any_disabling : List Middleware → Bool
unfolding is_disabling
any_disabling [] = false
any_disabling (m ∷ chain) = is_disabling m || any_disabling chain

-- `introspection_disabled`, of the chain that is given, or else of the setting's.
unfoldable pub introspection_disabled : Settings → Option (List Middleware) → List Middleware → Bool
unfolding any_disabling
introspection_disabled settings none installed =
    if settings.allow_introspection then false else any_disabling installed
introspection_disabled settings (some chain) installed =
    if settings.allow_introspection then false else any_disabling chain
