-- ===== src/Settings/Reader.antt =====
-- `_BaseAPISettings`: a setting is looked up, imported, validated and kept until a reload.
use text.Mathlib.Text.{starts_with}
use django_graphex.Common.{
  ℕ, Bool, true, false, not, ◌&&◌, ◌||◌, String, Option, none, some, List, [], ◌∷◌, lookup,
  contains, str_eq, ℤ, pos, negsuc, is_negative, leb, ltb, is_some, if◌then◌else◌,
}

-- The values that the validation tells apart; `float` carries whether it is finite and above 0.
pub data Value : Type 0 where
  null : Value
  bool : Bool → Value
  int : ℤ → Value
  float : (is_finite : Bool) → (is_positive : Bool) → Value
  str : String → Value
  other : Value

pub data Result : Type 0 where
  ok : Value → Result
  attribute_error : String → Result
  improperly_configured : String → Result

-- `LIMIT_MINIMUMS`
abbrev pub limit_minimums : List (String × ℕ)
limit_minimums =
    ("MAX_QUERY_DEPTH", 1)
    ∷ ("MAX_QUERY_COST", 1)
    ∷ ("MAX_REPLACE_OUTPUT_LENGTH", 1)
    ∷ ("MAX_DIRECTIVE_OUTPUT_TOTAL", 1)
    ∷ ("OPTIMIZER_WORK_BUDGET", 1)
    ∷ ("PERMISSION_SCHEMA_CACHE_MAXSIZE", 0)
    ∷ ("MAX_BATCH_SIZE", 0)
    ∷ ("MAX_REQUEST_BODY_SIZE", 0)
    ∷ ("DOCUMENT_CACHE_MAXSIZE", 0)
    ∷ ("DOCUMENT_CACHE_MAX_QUERY_LENGTH", 0)
    ∷ []

-- An int that is no bool.
abbrev pub is_plain_int : Value → Bool
is_plain_int (int z) = true
is_plain_int _ = false

-- `isinstance(value, int)`, where a bool counts as 0 or 1.
abbrev pub as_int : Value → Option ℤ
as_int (int z) = some z
as_int (bool true) = some (pos 1)
as_int (bool false) = some (pos 0)
as_int _ = none

abbrev pub at_least : ℕ → ℤ → Bool
at_least minimum (pos n) = leb minimum n
at_least minimum (negsuc n) = false

-- `_validate_limit`: whether the value is accepted.
unfoldable pub validate_limit : Value → String → ℕ → Bool
validate_limit null key minimum = true
validate_limit value key minimum =
    let strict = contains key ("OPTIMIZER_WORK_BUDGET" ∷ "DOCUMENT_CACHE_MAX_QUERY_LENGTH" ∷ []) in
    if strict && not (is_plain_int value)
    then false
    else (elim (as_int value) [ none ↦ true | some z ↦ at_least minimum z ])

-- `_validate_choice`, of `SETTING_CHOICES`
unfoldable pub validate_choice : Value → Bool
validate_choice (str s) = contains s ("global" ∷ "identity" ∷ [])
validate_choice _ = false

abbrev is_bool : Value → Bool
is_bool (bool b) = true
is_bool _ = false

abbrev is_above_zero : ℤ → Bool
is_above_zero (pos n) = ltb 0 n
is_above_zero (negsuc n) = false

-- A finite number above 0 that is no bool.
abbrev is_interval : Value → Bool
is_interval (int z) = is_above_zero z
is_interval (float is_finite is_positive) = is_finite && is_positive
is_interval _ = false

abbrev is_count : Value → Bool
is_count (int z) = is_above_zero z
is_count _ = false

abbrev is_redis_url : Value → Bool
is_redis_url null = true
is_redis_url (str s) = starts_with s "redis://" || starts_with s "rediss://"
is_redis_url _ = false

-- `_validate_sse_setting`
unfoldable pub validate_sse_setting : Value → String → Bool
validate_sse_setting value attr =
    if contains attr ("SSE_HEARTBEAT_ENABLED" ∷ "SSE_CONNECTION_LIMIT_ENABLED" ∷ [])
    then is_bool value
    else if str_eq attr "SSE_HEARTBEAT_INTERVAL"
    then is_interval value
    else if str_eq attr "SSE_MAX_CONNECTIONS_PER_USER"
    then is_count value
    else if str_eq attr "SSE_CONNECTION_REDIS_URL"
    then is_redis_url value
    else true

is_null : Value → Bool
is_null null = true
is_null _ = false

is_free_or_more : Value → Bool
is_free_or_more (int z) = not (is_negative z)
is_free_or_more _ = false

within_limit : String → Value → Option ℕ → Bool
within_limit attr value none = true
within_limit attr value (some minimum) = validate_limit value attr minimum

-- The checks of `__getattr__`, in its order.
unfoldable pub is_accepted : String → Value → Bool
unfolding is_null is_free_or_more within_limit
is_accepted attr value =
    within_limit attr value (lookup attr limit_minimums)
    && (not (contains attr ("MAX_REPLACE_OUTPUT_LENGTH" ∷ "MAX_DIRECTIVE_OUTPUT_TOTAL" ∷ []))
        || (is_null value || is_plain_int value))
    && (not (str_eq attr "COST_DIRECTIVE") || is_free_or_more value)
    && (not (str_eq attr "CACHE_INVALIDATION_SCOPE") || validate_choice value)
    && (not (starts_with attr "SSE_") || validate_sse_setting value attr)

-- What the module fixes: the defaults, and the keys whose texts are imported.
pub record Namespace : Type 0 where
  pub defaults : List (String × Value)
  pub import_strings : List String
  pub perform_import : Value → Value

-- The attributes that `setattr` has kept, and the user's settings as they were first read.
pub record Reader : Type 0 where
  pub kept : List (String × Value)
  pub user_settings : Option (List (String × Value))

unfoldable pub user_of : Reader → List (String × Value) → List (String × Value)
user_of reader django = elim reader.user_settings [ none ↦ django | some user ↦ user ]

unfoldable pub imported : Namespace → String → Value → Value
imported namespace attr value =
    if contains attr namespace.import_strings then namespace.perform_import value else value

unfoldable pub checked : String → Value → Reader → Result × Reader
checked attr value reader =
    if is_accepted attr value
    then (ok value, record reader { kept = (attr, value) ∷ reader.kept })
    else (improperly_configured attr, reader)

unfoldable pub missing :
    Namespace → String → Reader → List (String × Value) → Option Value → Result × Reader
unfolding user_of imported checked
missing namespace attr reader django none = (attribute_error attr, reader)
missing namespace attr reader django (some default) =
    let reader' = record reader { user_settings = some (user_of reader django) } in
    (elim (lookup attr (user_of reader django)) [
      | some value ↦ checked attr (imported namespace attr value) reader'
      | none ↦ checked attr (imported namespace attr default) reader'
    ])

-- Reading an attribute: a kept one, or else `__getattr__`. `django` is what Django's settings hold
-- under the namespace at that time.
unfoldable pub get_attr : Namespace → String → List (String × Value) → Reader → Result × Reader
unfolding missing
get_attr namespace attr django reader = elim (lookup attr reader.kept) [
  | some value ↦ (ok value, reader)
  | none ↦ missing namespace attr reader django (lookup attr namespace.defaults)
]

unfoldable pub without : List (String × Value) → List (String × Value) → List (String × Value)
without defaults [] = []
without defaults ((attr, value) ∷ kept) =
    let rest = without defaults kept in
    if is_some (lookup attr defaults) then rest else (attr, value) ∷ rest

-- `reload`
unfoldable pub reload : Namespace → Reader → Reader
unfolding without
reload namespace reader = record {
  kept = without namespace.defaults reader.kept;
  user_settings = none;
}
