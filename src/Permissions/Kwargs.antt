-- ===== src/Permissions/Kwargs.antt =====
-- `supported_kwargs`: the keyword arguments that a check can accept. A check's parameters are those
-- of the method, `self` among them.
use django_graphex.Common.{
  Bool, true, false, not, ◌&&◌, ◌||◌, String, Option, none, some, List, [], ◌∷◌, str_eq, contains,
  lookup, is_some, if◌then◌else◌,
}

-- The values that a check reads: None, an action's text, or anything else.
pub data Value : Type 0 where
  none_value : Value
  action_value : String → Value
  other_value : Value

abbrev pub Kwargs : Type 0
Kwargs = List (String × Value)

-- `inspect.Parameter.kind`
pub data Kind : Type 0 where
  positional_only : Kind
  positional_or_keyword : Kind
  var_positional : Kind
  keyword_only : Kind
  var_keyword : Kind

pub record Parameter : Type 0 where
  pub name : String
  pub kind : Kind
  pub has_default : Bool

abbrev pub add_named : Kind → String → Option (List String) → Option (List String)
add_named var_keyword name names = none
add_named kind name none = none
add_named positional_or_keyword name (some names) = some (name ∷ names)
add_named keyword_only name (some names) = some (name ∷ names)
add_named positional_only name (some names) = some names
add_named var_positional name (some names) = some names

-- `_named_kwargs`, of a method that can be introspected: none for `**kwargs`.
unfoldable pub named_kwargs : List Parameter → Option (List String)
named_kwargs [] = some []
named_kwargs (p ∷ parameters) = add_named p.kind p.name (named_kwargs parameters)

-- `{name: value for name, value in kwargs.items() if name in accepted}`
abbrev pub keep : List String → Kwargs → Kwargs
keep accepted [] = []
keep accepted ((name, value) ∷ kwargs) =
    if contains name accepted then (name, value) ∷ keep accepted kwargs else keep accepted kwargs

unfoldable pub supported_kwargs : List Parameter → Kwargs → Kwargs
unfolding named_kwargs
supported_kwargs parameters kwargs = elim (named_kwargs parameters) [
  | none ↦ kwargs
  | some accepted ↦ keep accepted kwargs
]

-- What Python's call accepts by keyword.
abbrev pub is_keyword : Kind → Bool
is_keyword positional_or_keyword = true
is_keyword keyword_only = true
is_keyword positional_only = false
is_keyword var_positional = false
is_keyword var_keyword = false

abbrev pub is_var_keyword : Kind → Bool
is_var_keyword var_keyword = true
is_var_keyword kind = false

abbrev pub accepts : List Parameter → String → Bool
accepts [] name = false
accepts (p ∷ parameters) name =
    is_var_keyword p.kind || (is_keyword p.kind && str_eq p.name name) || accepts parameters name

-- The parameters that `has_permission` is called with by position.
abbrev pub positionals : List String
positionals = "self" ∷ "info" ∷ "action" ∷ "model" ∷ []

abbrev pub signature : List Parameter → List Parameter
signature extras =
    record { name = "self"; kind = positional_or_keyword; has_default = false }
    ∷ record { name = "info"; kind = positional_or_keyword; has_default = false }
    ∷ record { name = "action"; kind = positional_or_keyword; has_default = false }
    ∷ record { name = "model"; kind = positional_or_keyword; has_default = false }
    ∷ extras

-- A parameter beyond the four that needs no value, or is given one by its name.
abbrev pub is_given : Kind → Bool → Bool → Bool
is_given var_keyword has_default found = true
is_given var_positional has_default found = true
is_given positional_only has_default found = has_default
is_given positional_or_keyword has_default found = has_default || found
is_given keyword_only has_default found = has_default || found

abbrev pub are_given : List Parameter → Kwargs → Bool
are_given [] kwargs = true
are_given (p ∷ extras) kwargs =
    is_given p.kind p.has_default (is_some (lookup p.name kwargs)) && are_given extras kwargs

-- No keyword names an argument that is given by position, and each is accepted.
abbrev pub are_accepted : List Parameter → Kwargs → Bool
are_accepted extras [] = true
are_accepted extras ((name, value) ∷ kwargs) =
    not (contains name positionals) && accepts extras name && are_accepted extras kwargs

-- Python binds the arguments, and does not raise a TypeError.
abbrev pub binds : List Parameter → Kwargs → Bool
binds extras kwargs = are_accepted extras kwargs && are_given extras kwargs
