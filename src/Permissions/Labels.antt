-- ===== src/Permissions/Labels.antt =====
-- `required_perms_for`: the codenames that a schema's field is labelled with.
use Prim.Native.String.{◌++◌ as append}
use django_graphex.Common.{
  String, Option, none, some, List, [], ◌∷◌, map, str_eq, lookup, if◌then◌else◌,
}
use django_graphex.Permissions.Policies.{Model}

-- `_ACTION_VERBS`
abbrev pub action_verbs : List (String × List String)
action_verbs =
    ("retrieve", "view" ∷ [])
    ∷ ("list", "view" ∷ [])
    ∷ ("create", "add" ∷ "view" ∷ [])
    ∷ ("update", "change" ∷ "view" ∷ [])
    ∷ ("delete", "delete" ∷ "view" ∷ [])
    ∷ []

-- `_SUBSCRIBE_VERBS`
abbrev pub subscribe_verbs : List (String × List String)
subscribe_verbs =
    ("create", "view" ∷ "add" ∷ [])
    ∷ ("update", "view" ∷ "change" ∷ [])
    ∷ ("delete", "view" ∷ "delete" ∷ [])
    ∷ ("all_actions", "view" ∷ "add" ∷ "change" ∷ "delete" ∷ [])
    ∷ []

-- `_codename`
abbrev pub codename : Model → String → String
codename model verb =
    append model.app_label (append "." (append verb (append "_" model.model_name)))

abbrev pub subaction_of : Option String → String
subaction_of none = "all_actions"
subaction_of (some subaction) = if str_eq subaction "" then "all_actions" else subaction

abbrev pub verbs_of : String → Option String → Option (List String)
verbs_of action subaction =
    if str_eq action "subscribe"
    then lookup (subaction_of subaction) subscribe_verbs
    else lookup action action_verbs

-- None for the KeyError of an unknown action.
unfoldable pub required_perms_for : Model → String → Option String → Option (List String)
required_perms_for model action subaction = elim (verbs_of action subaction) [
  | none ↦ none
  | some verbs ↦ some (map (codename model) verbs)
]
