-- ===== src/Security/Masking.antt =====
-- What the errors of a failing server tell a client.
use django_graphex.Common.{◌≡◌, ◌↔◌, refl, Bool, false, String, Option, none, some, List, arith}
use django_graphex.Security.Middleware.{Settings, Middleware}
use django_graphex.Security.Errors.{
  Formatted, Error, graphql, raised, not_raised, Original, absent, back, wraps,
  internal_error_cause, cause_below, wire_of, is_client_input, format_graphql_error, is_database,
  format_client_error,
}

-- The errors that are meant for the client: no exception but GraphQLErrors, down to one that has no
-- original error.
mutual
  pub data IsPublic : Error → Type 0 where
    no_exception : (text : String) → IsPublic (not_raised text)
    deliberate :
        (f : Formatted) (c : Bool) (original : Original)
        → IsPublicBelow original
        → IsPublic (graphql f c original)

  pub data IsPublicBelow : Original → Type 0 where
    ends : IsPublicBelow absent
    goes_on :
        (f : Formatted) (c : Bool) (original : Original)
        → IsPublicBelow original
        → IsPublicBelow (wraps (graphql f c original))

cause_below-none :
    (error : Error) (original : Original)
    → cause_below error original ≡ none
    → IsPublicBelow original
unfolding cause_below
cause_below-none error absent e = ends
cause_below-none error back e = absurd (cc e)
cause_below-none error (wraps (graphql f c original)) e =
    goes_on f c original (cause_below-none error original e)
cause_below-none error (wraps (raised kind text)) e = absurd (cc e)
cause_below-none error (wraps (not_raised text)) e = absurd (cc e)

none-cause_below :
    (error : Error) (original : Original)
    → IsPublicBelow original
    → cause_below error original ≡ none
unfolding cause_below
none-cause_below error _ ends = refl
none-cause_below error _ (goes_on f c original b) = none-cause_below error original b

-- No cause is found exactly for the errors that are meant for the client: a chain of GraphQLErrors
-- that ends without an original error, or what is no exception.
pub internal_error_cause-none_iff :
    (error : Error) → (internal_error_cause error ≡ none) ↔ IsPublic error
unfolding internal_error_cause
internal_error_cause-none_iff (graphql f c original) = (
  λ e. deliberate f c original (cause_below-none (graphql f c original) original e),
  public_below,
)
  where
    public_below :
        IsPublic (graphql f c original) → internal_error_cause (graphql f c original) ≡ none
    public_below (deliberate _ _ _ b) = none-cause_below (graphql f c original) original b
internal_error_cause-none_iff (raised kind text) = (λ e. absurd (cc e), λ p. elim p [ ])
internal_error_cause-none_iff (not_raised text) = (λ e. no_exception text, λ p. refl)

-- With DEBUG off, two unexpected failures, neither of them a client's invalid input, that stand at
-- the same locations and path and are both of the database or both not, look the same to a client,
-- up to the opaque ID: nothing of their texts or extensions gets out.
pub format_client_error-masks :
    (settings : Settings) (strip : String → String) (chain : Option (List Middleware))
    (installed : List Middleware) (error_id : String) (e e' cause cause' : Error)
    → settings.debug ≡ false
    → internal_error_cause e ≡ some cause
    → internal_error_cause e' ≡ some cause'
    → is_client_input e cause ≡ false
    → is_client_input e' cause' ≡ false
    → is_database cause ≡ is_database cause'
    → (wire_of e).locations ≡ (wire_of e').locations
    → (wire_of e).path ≡ (wire_of e').path
    → format_client_error settings strip chain installed error_id e
      ≡ format_client_error settings strip chain installed error_id e'
unfolding format_client_error format_graphql_error
format_client_error-masks settings strip chain installed error_id e e' cause cause' off c c' i i' d
      l p =
    ground arith
