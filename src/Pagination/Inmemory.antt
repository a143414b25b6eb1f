-- ===== src/Pagination/Inmemory.antt =====
-- `_inmemory_order`: the rows of a list are sorted by one term after the other, the last one first.
-- A row's attributes are the ranks of their values.
use django_graphex.Common.{
  ℕ, Bool, true, false, ◌&&◌, ◌||◌, Option, none, some, List, [], ◌∷◌, ◌++◌, ◌==◌, if◌then◌else◌,
}
use django_graphex.Cursor.Keyset.{sort_key, is_beyond}
use django_graphex.Pagination.Terms.{
  Text, Ordering, Model, split_ordering, is_falsy, among, pk_names, bare_of,
}

abbrev pub uses_pk : Model → List Text → Bool
uses_pk model [] = false
uses_pk model (t ∷ terms) = among (bare_of t) (pk_names model) || uses_pk model terms

-- `_append_model_pk_ordering`, of terms that are texts
unfoldable pub append_model_pk_ordering : Model → List Text → List Text
append_model_pk_ordering model terms =
    if uses_pk model terms then terms else terms ++ (model.pk_attname ∷ [])

-- `term.startswith("-")`
abbrev pub is_descending : Text → Bool
is_descending [] = false
is_descending (c ∷ t) = c == b'-'

abbrev pub allows : Option (List Text) → List Text → Bool
allows none terms = true
allows (some names) [] = true
allows (some names) (t ∷ terms) = among (bare_of t) names && allows (some names) terms

module _ {A : Type 0} (attribute : Text → A → Option ℕ) where
  -- Whether the sort by the term puts `x` before `y`.
  abbrev pub is_before : Text → A → A → Bool
  is_before term x y =
      is_beyond (is_descending term) (sort_key (attribute (bare_of term) y))
        (sort_key (attribute (bare_of term) x))

  -- Python's stable `sort`, by insertion: `x`, which stood before `ys`, goes behind those that the
  -- order puts before it. `reverse=True` keeps the order of equals.
  abbrev pub insert_item : Text → A → List A → List A
  insert_item term x [] = x ∷ []
  insert_item term x (y ∷ ys) =
      let rest = insert_item term x ys in if is_before term y x then y ∷ rest else x ∷ y ∷ ys

  abbrev pub sort_items : Text → List A → List A
  sort_items term [] = []
  sort_items term (x ∷ items) = insert_item term x (sort_items term items)

  -- `for term in reversed(terms)`
  abbrev pub sort_by_terms : List Text → List A → List A
  sort_by_terms [] items = items
  sort_by_terms (t ∷ terms) items = sort_items t (sort_by_terms terms items)

  abbrev pub total_terms : Model → List Text → List A → List Text
  total_terms model terms [] = terms
  total_terms model terms (x ∷ items) = append_model_pk_ordering model terms

  -- `_inmemory_order`; none is the error of a term.
  unfoldable pub inmemory_order : Model → List A → Ordering → Option (List Text) → Option (List A)
  unfolding split_ordering
  inmemory_order model items ordering allowed =
      if is_falsy ordering then some items else elim (split_ordering ordering) [
        | none ↦ none
        | some terms ↦
            if allows allowed terms
            then some (sort_by_terms (total_terms model terms items) items)
            else none
      ]
