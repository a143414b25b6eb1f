-- ===== src/Security/Tests.antt =====
-- A locked schema, an anonymous user, and errors of three kinds.
use django_graphex.Common.{◌≡◌, ◌↔◌, refl, true, false, String, none, some, List, [], ◌∷◌}
use django_graphex.Security.Middleware.{
  Settings, Info, value, Middleware, disables_introspection, authenticates_fields, resolve,
}
use django_graphex.Security.Access.{PassesAll, resolve-value_iff}
use django_graphex.Security.Errors.{
  Formatted, Error, graphql, raised, database_error, wraps, internal_error_cause, cause_below,
  is_client_input, format_client_error,
}
use django_graphex.Security.Masking.{
  IsPublic, internal_error_cause-none_iff, format_client_error-masks,
}

abbrev settings : Settings
settings = record {
  debug = false;
  allow_introspection = false;
  introspection_allow_superuser = true;
  protected_fields = some ("me" ∷ []);
}

abbrev info : Info
info = record {
  field_name = "me";
  nested = false;
  user = none;
  gdx_protected_fields = none;
  gde_protected_fields = none;
}

abbrev chain : List Middleware
chain = disables_introspection ∷ authenticates_fields ∷ []

abbrev answer : String
answer = "v"

resolve-value_iff_example :
    (resolve settings info chain answer ≡ value answer) ↔ PassesAll settings info chain
resolve-value_iff_example = resolve-value_iff settings info chain answer

abbrev formatted : String → Formatted
formatted message = record { message = message; locations = none; path = none; extensions = none }

abbrev lost : Error
lost =
    graphql (formatted "connection to 10.0.0.7 lost") false
      (wraps (raised database_error "10.0.0.7"))

abbrev locked : Error
locked = graphql (formatted "table users is locked") false (wraps (raised database_error "users"))

internal_error_cause-none_iff_example : (internal_error_cause lost ≡ none) ↔ IsPublic lost
internal_error_cause-none_iff_example = internal_error_cause-none_iff lost

cause_of_lost : internal_error_cause lost ≡ some (raised database_error "10.0.0.7")
unfolding internal_error_cause cause_below
cause_of_lost = refl

cause_of_locked : internal_error_cause locked ≡ some (raised database_error "users")
unfolding internal_error_cause cause_below
cause_of_locked = refl

format_client_error-masks_example :
    format_client_error settings (λ s. s) none chain "id" lost
    ≡ format_client_error settings (λ s. s) none chain "id" locked
format_client_error-masks_example =
    format_client_error-masks settings (λ s. s) none chain "id" lost locked
      (raised database_error "10.0.0.7") (raised database_error "users") refl cause_of_lost
      cause_of_locked (unfold is_client_input in refl) (unfold is_client_input in refl) refl refl
      refl
