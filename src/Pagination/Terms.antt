-- ===== src/Pagination/Terms.antt =====
-- Ordering terms: `_normalize_ordering_term`, `_split_ordering`, `_resolve_ordering`, and the check
-- of a queryset's terms. Texts are their code points.
use django_graphex.Common.{
  ℕ, Bool, true, false, not, ◌&&◌, ◌||◌, Option, none, some, List, [], ◌∷◌, ◌++◌, ◌==◌,
  if◌then◌else◌,
}
use django_graphex.StrConv.Snake.{to_snake_case}

abbrev pub Text : Type 0
Text = List ℕ

abbrev pub is_sign : ℕ → Bool
is_sign c = (c == b'-') || (c == b'+')

-- Whether the text starts with a direction.
abbrev pub is_signed : Text → Bool
is_signed [] = false
is_signed (c ∷ t) = is_sign c

abbrev pub direction : ℕ → Text
direction c = if c == b'-' then b'-' ∷ [] else []

-- `_normalize_ordering_term`; none is the error of a repeated direction.
unfoldable pub normalize_ordering_term : Text → Option Text
unfolding to_snake_case
normalize_ordering_term [] = some []
normalize_ordering_term (c ∷ bare) =
    if is_sign c
    then if is_signed bare then none else some (direction c ++ to_snake_case bare)
    else some (to_snake_case (c ∷ bare))

-- An `ordering` value: one text, or a list of terms.
pub data Ordering : Type 0 where
  joined : Text → Ordering
  listed : List Text → Ordering

-- `ordering.replace(" ", "")`
abbrev pub drop_spaces : Text → Text
drop_spaces [] = []
drop_spaces (c ∷ t) = let rest = drop_spaces t in if c == b' ' then rest else c ∷ rest

abbrev pub to_first : ℕ → List Text → List Text
to_first c [] = (c ∷ []) ∷ []
to_first c (part ∷ parts) = (c ∷ part) ∷ parts

-- `text.split(",")`
abbrev pub split_commas : Text → List Text
split_commas [] = [] ∷ []
split_commas (c ∷ t) = let rest = split_commas t in if c == b',' then [] ∷ rest else to_first c rest

abbrev pub is_empty : Text → Bool
is_empty [] = true
is_empty (c ∷ t) = false

abbrev pub non_empty : List Text → List Text
non_empty [] = []
non_empty (t ∷ terms) = let rest = non_empty terms in if is_empty t then rest else t ∷ rest

abbrev pub raw_terms : Ordering → List Text
raw_terms (joined t) = non_empty (split_commas (drop_spaces t))
raw_terms (listed terms) = non_empty terms

abbrev pub add_term : Option Text → Option (List Text) → Option (List Text)
add_term (some t) (some terms) = some (t ∷ terms)
add_term (some t) none = none
add_term none terms = none

unfoldable pub normalize_all : List Text → Option (List Text)
unfolding normalize_ordering_term
normalize_all [] = some []
normalize_all (t ∷ terms) = add_term (normalize_ordering_term t) (normalize_all terms)

-- `_split_ordering`
unfoldable pub split_ordering : Ordering → Option (List Text)
unfolding normalize_all
split_ordering ordering = normalize_all (raw_terms ordering)

-- `",".join(terms)`
abbrev pub join_commas : List Text → Text
join_commas [] = []
join_commas (t ∷ []) = t
join_commas (t ∷ next ∷ terms) = t ++ (b',' ∷ join_commas (next ∷ terms))

-- `not ordering`
abbrev pub is_falsy : Ordering → Bool
is_falsy (joined t) = is_empty t
is_falsy (listed []) = true
is_falsy (listed (t ∷ terms)) = false

abbrev pub in_shape : Ordering → Option (List Text) → Option Ordering
in_shape ordering none = none
in_shape (joined t) (some terms) = some (joined (join_commas terms))
in_shape (listed ts) (some terms) = some (listed terms)

-- `_normalize_ordering`
unfoldable pub normalize_ordering : Ordering → Option Ordering
unfolding split_ordering
normalize_ordering ordering =
    if is_falsy ordering then some ordering else in_shape ordering (split_ordering ordering)

abbrev pub with_allowed :
    Option (List Text) → Option Ordering → Option (Ordering × Option (List Text))
with_allowed allowed none = none
with_allowed allowed (some ordering) = some (ordering, allowed)

-- `_resolve_ordering`: the allowlist goes with the client's argument, not with the default.
unfoldable pub resolve_ordering :
    Option Ordering → Ordering → Option (List Text) → Option (Ordering × Option (List Text))
unfolding normalize_ordering
resolve_ordering none default allowed = with_allowed none (normalize_ordering default)
resolve_ordering (some requested) default allowed =
    if is_falsy requested
    then with_allowed none (normalize_ordering default)
    else with_allowed allowed (normalize_ordering requested)

-- `model._meta`: the attnames of the concrete fields, and those of its nullable ones; the key's
-- attname and name; the default ordering, as far as it consists of texts.
pub record Model : Type 0 where
  pub concrete_attnames : List Text
  pub nullable_attnames : List Text
  pub pk_attname : Text
  pub pk_name : Text
  pub meta_ordering : List Text

abbrev pub text_eq : Text → Text → Bool
text_eq [] [] = true
text_eq [] (d ∷ t) = false
text_eq (c ∷ s) [] = false
text_eq (c ∷ s) (d ∷ t) = (c == d) && text_eq s t

abbrev pub among : Text → List Text → Bool
among t [] = false
among t (s ∷ names) = text_eq s t || among t names

abbrev pub meets : List Text → List Text → Bool
meets [] names = false
meets (t ∷ ts) names = among t names || meets ts names

-- Whether the column is one that `allowed` leaves.
abbrev pub is_column : Model → Option (List Text) → Text → Bool
is_column model none t = among t model.concrete_attnames
is_column model (some allowed) t = among t model.concrete_attnames && among t allowed

abbrev pub pk_names : Model → List Text
pk_names model = (b'p' ∷ b'k' ∷ []) ∷ model.pk_attname ∷ model.pk_name ∷ []

abbrev pub pk_aliases : Model → Option (List Text) → List Text
pk_aliases model none = pk_names model
pk_aliases model (some allowed) = if meets (pk_names model) allowed then pk_names model else []

-- `term.lstrip("-+")`
abbrev pub bare_of : Text → Text
bare_of [] = []
bare_of (c ∷ t) = let rest = bare_of t in if is_sign c then rest else c ∷ t

-- `LOOKUP_SEP in bare`
abbrev pub has_lookup : Text → Bool
has_lookup [] = false
has_lookup (c ∷ []) = false
has_lookup (c ∷ d ∷ t) = ((c == b'_') && (d == b'_')) || has_lookup (d ∷ t)

abbrev pub is_valid : Model → Option (List Text) → Text → Bool
is_valid model allowed term =
    among (bare_of term) (pk_aliases model allowed)
    || (not (has_lookup (bare_of term)) && is_column model allowed (bare_of term))

abbrev pub are_valid : Model → Option (List Text) → List Text → Bool
are_valid model allowed [] = true
are_valid model allowed (t ∷ terms) = is_valid model allowed t && are_valid model allowed terms

-- `_validate_ordering_terms`: the terms, each of them checked; none is the error.
unfoldable pub validate_ordering_terms : Model → Ordering → Option (List Text) → Option (List Text)
unfolding split_ordering
validate_ordering_terms model ordering allowed =
    if is_falsy ordering then some [] else elim (split_ordering ordering) [
      | none ↦ none
      | some terms ↦ if are_valid model allowed terms then some terms else none
    ]
