-- ===== src/Settings/Tests.antt =====
-- A namespace with two settings.
use django_graphex.Common.{◌≡◌, refl, true, String, List, [], ◌∷◌, pos}
use django_graphex.Settings.Reader.{
  Value, null, int, bool, Namespace, ok, get_attr, reload, is_accepted, missing, checked, imported,
  user_of, without, validate_limit,
}
use django_graphex.Settings.Laws.{Event, after, fresh, get_attr-accepted, get_attr-reload}

abbrev namespace : Namespace
namespace = record {
  defaults = ("MAX_QUERY_DEPTH", null) ∷ ("DEBUG_TOOL", bool true) ∷ [];
  import_strings = [];
  perform_import = λ v. v;
}

abbrev django : List (String × Value)
django = ("MAX_QUERY_DEPTH", int (pos 7)) ∷ []

abbrev events : List Event
events = Event.reads "MAX_QUERY_DEPTH" [] ∷ Event.reloads ∷ []

seven :
    (get_attr namespace "MAX_QUERY_DEPTH" django (after namespace events fresh)).0
    ≡ ok (int (pos 7))
unfolding get_attr after reload missing checked imported user_of without is_accepted validate_limit
seven = refl

get_attr-accepted_example : is_accepted "MAX_QUERY_DEPTH" (int (pos 7)) ≡ true
get_attr-accepted_example =
    get_attr-accepted namespace events "MAX_QUERY_DEPTH" django (int (pos 7)) seven

get_attr-reload_example :
    (get_attr namespace "DEBUG_TOOL" django (reload namespace (after namespace events fresh))).0
    ≡ (get_attr namespace "DEBUG_TOOL" django fresh).0
get_attr-reload_example =
    get_attr-reload namespace "DEBUG_TOOL" django (after namespace events fresh) (bool true) refl
