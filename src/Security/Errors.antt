-- ===== src/Security/Errors.antt =====
-- Errors as a client sees them. An error carries the chain of its original errors, up to the first
-- one that the chain has met before.
use Prim.Native.String.{◌++◌ as append}
use text.Mathlib.Text.{starts_with, find?}
use django_graphex.Common.{
  ℕ, zero, suc, ◌-◌, Bool, true, false, ◌&&◌, String, Option, none, some, List, [], ◌∷◌, is_some,
  str_eq, if◌then◌else◌,
}
use django_graphex.Security.Middleware.{Settings, Middleware, introspection_disabled}

pub data PathKey : Type 0 where
  key : String → PathKey
  index : ℕ → PathKey

-- The wire shape of an error: `error.formatted`, or what a formatter puts in its place.
pub record Formatted : Type 0 where
  pub message : String
  pub locations : Option (List (ℕ × ℕ))
  pub path : Option (List PathKey)
  pub extensions : Option (List (String × String))

pub data Kind : Type 0 where
  value_error : Kind
  type_error : Kind
  database_error : Kind
  other_error : Kind

-- `client_error` is the attribute that `mark_client_errors` sets.
mutual
  pub data Error : Type 0 where
    graphql : (formatted : Formatted) (client_error : Bool) (original_error : Original) → Error
    raised : (kind : Kind) (text : String) → Error
    not_raised : (text : String) → Error

  pub data Original : Type 0 where
    absent : Original
    back : Original
    wraps : Error → Original

-- `internal_error_cause`, of a chain below `error`
unfoldable pub cause_below : Error → Original → Option Error
cause_below error absent = none
cause_below error back = some error
cause_below error (wraps (graphql f c original)) = cause_below error original
cause_below error (wraps (raised kind text)) = some (raised kind text)
cause_below error (wraps (not_raised text)) = some error

unfoldable pub internal_error_cause : Error → Option Error
unfolding cause_below
internal_error_cause (graphql f c original) = cause_below (graphql f c original) original
internal_error_cause (raised kind text) = some (raised kind text)
internal_error_cause (not_raised text) = none

-- `str(error)`
abbrev pub text_of : Error → String
text_of (graphql f c original) = f.message
text_of (raised kind text) = text
text_of (not_raised text) = text

-- `error.formatted`, or the text of an exception
abbrev pub wire_of : Error → Formatted
wire_of (graphql f c original) = f
wire_of error = record { message = text_of error; locations = none; path = none; extensions = none }

-- `mark_client_errors`, of one error
unfoldable pub mark_client_error : Error → Error
mark_client_error (graphql f c original) = graphql f true original
mark_client_error (raised kind text) = raised kind text
mark_client_error (not_raised text) = not_raised text

-- `mark_request_errors`, of one error
unfoldable pub mark_request_error : Error → Error
mark_request_error (graphql f c original) = elim f.path [
  | none ↦ graphql f true original
  | some path ↦ graphql f c original
]
mark_request_error (raised kind text) = raised kind text
mark_request_error (not_raised text) = not_raised text

abbrev is_bad_value : Error → Bool
is_bad_value (raised value_error text) = true
is_bad_value (raised type_error text) = true
is_bad_value _ = false

abbrev client_error_of : Error → Bool
client_error_of (graphql f c original) = c
client_error_of _ = false

-- `is_client_input`
unfoldable pub is_client_input : Error → Error → Bool
is_client_input error cause = client_error_of error && is_bad_value cause

text_length : String → ℕ
text_length String.[] = 0
text_length (String.◌∷◌ c text) = suc (text_length text)

-- `text.replace(old, new)`, with `skip` letters of a match still to leave out.
replace_from : String → String → ℕ → String → String
unfolding text_length
replace_from old new skip String.[] = ""
replace_from old new (suc skip) (String.◌∷◌ c text) = replace_from old new skip text
replace_from old new zero (String.◌∷◌ c text) =
    let inside = replace_from old new (text_length old - 1) text in
    let outside = replace_from old new zero text in
    if starts_with (String.◌∷◌ c text) old then append new inside else String.◌∷◌ c outside

-- `scrub_cause_text`
unfoldable pub scrub_cause_text : String → Error → String
unfolding replace_from
scrub_cause_text message cause =
    let text = text_of cause in
    let marker = append ", but encountered error '" (append text "'") in
    if str_eq text ""
    then message
    else if is_some (find? message marker)
    then replace_from marker "" zero message
    else replace_from text "invalid value" zero message

-- `format_graphql_error`; `strip` is `_strip_suggestion`.
unfoldable pub format_graphql_error :
    Settings → (String → String) → Option (List Middleware) → List Middleware → Error → Formatted
format_graphql_error settings strip chain installed error =
    if introspection_disabled settings chain installed
    then record (wire_of error) { message = strip (wire_of error).message }
    else wire_of error

abbrev pub is_database : Error → Bool
is_database (raised database_error text) = true
is_database _ = false

abbrev pub safe_code : Bool → String
safe_code true = "DATA_ACCESS_ERROR"
safe_code false = "INTERNAL_SERVER_ERROR"

abbrev pub safe_message : Bool → String
safe_message true = "Unable to complete the data operation."
safe_message false = "An internal error occurred."

-- `format_client_error`: what the client gets; `error_id` is the fresh opaque ID.
unfoldable pub format_client_error :
    Settings
    → (String → String)
    → Option (List Middleware)
    → List Middleware
    → String
    → Error
    → Formatted
format_client_error settings strip chain installed error_id error =
    let formatted = format_graphql_error settings strip chain installed error in
    if settings.debug then formatted else (elim (internal_error_cause error) [
      | none ↦ formatted
      | some cause ↦
          if is_client_input error cause
          then record formatted { message = scrub_cause_text formatted.message cause }
          else record {
            message = safe_message (is_database cause);
            locations = formatted.locations;
            path = formatted.path;
            extensions =
                some (("code", safe_code (is_database cause)) ∷ ("errorId", error_id) ∷ []);
          }
    ])

-- `as_graphql_error`
unfoldable pub as_graphql_error : Error → Error
as_graphql_error (graphql f c original) = graphql f c original
as_graphql_error error =
    graphql (record { message = text_of error; locations = none; path = none; extensions = none })
      false (wraps error)
