-- ===== src/Pagination/Queryset.antt =====
-- `_apply_ordering` of a queryset: the client's terms, or the queryset's own, completed by the key.
-- The ORM's expressions in a queryset's own ordering are left out.
use django_graphex.Common.{
  Bool, true, false, not, ◌&&◌, ◌||◌, ◌≡◌, Option, none, some, List, [], ◌∷◌, map, if◌then◌else◌,
}
use django_graphex.Pagination.Terms.{
  Text, Ordering, Model, is_falsy, among, text_eq, bare_of, resolve_ordering,
  validate_ordering_terms,
}
use django_graphex.Pagination.Inmemory.{append_model_pk_ordering, is_descending}

-- What `qs.query` says of the ordering.
pub record Query : Type 0 where
  pub extra_order_by : List Text
  pub order_by : List Text
  pub default_ordering : Bool
  pub standard_ordering : Bool

abbrev pub is_none : List Text → Bool
is_none [] = true
is_none (t ∷ terms) = false

-- The opposite direction of a term; `?` has none.
abbrev pub reversed : Text → Text
reversed [] = b'-' ∷ []
reversed (c ∷ t) =
    if text_eq (c ∷ t) (b'?' ∷ []) then c ∷ t else if is_descending (c ∷ t) then t else b'-' ∷ c ∷ t

abbrev pub own_terms : Model → Query → List Text
own_terms model query =
    if not (is_none query.extra_order_by)
    then query.extra_order_by
    else if not query.default_ordering || not (is_none query.order_by)
    then query.order_by
    else model.meta_ordering

-- `_effective_queryset_ordering`: its terms; they come from `extra_order_by` if there is one.
unfoldable pub effective_queryset_ordering : Model → Query → List Text × Bool
effective_queryset_ordering model query = (
  (if query.standard_ordering then own_terms model query else map reversed (own_terms model query)),
  not (is_none query.extra_order_by),
)

-- A term of the database's ordering: a text, or a column with the place of its nulls.
pub data Term : Type 0 where
  plain : Text → Term
  desc_nulls_first : Text → Term
  asc_nulls_last : Text → Term

-- Whether a term is a column with at most one direction in front.
abbrev pub is_directed : Text → Text → Bool
is_directed t name = text_eq t name || text_eq t (b'-' ∷ name) || text_eq t (b'+' ∷ name)

abbrev pub place_nulls : Model → Text → Term
place_nulls model t =
    if not (text_eq t (b'?' ∷ []))
      && is_directed t (bare_of t)
      && among (bare_of t) model.nullable_attnames
    then if is_descending t then desc_nulls_first (bare_of t) else asc_nulls_last (bare_of t)
    else plain t

-- `_automatic_null_ordering`
unfoldable pub automatic_null_ordering : Model → List Text → List Term
automatic_null_ordering model terms = map (place_nulls model) terms

unfoldable pub ordered_terms : Model → List Text × Bool → List Term
unfolding append_model_pk_ordering automatic_null_ordering
ordered_terms model (terms, true) = map plain (append_model_pk_ordering model terms)
ordered_terms model (terms, false) =
    automatic_null_ordering model (append_model_pk_ordering model terms)

module _ (order_by : List Text → Query → Query) where
  -- What is asked of the ORM's `order_by`: its terms replace every other ordering, and without a
  -- term there is no ordering, not even the model's.
  pub record IsReplacing : Type 0 where
    pub no_extra : (terms : List Text) (query : Query) → (order_by terms query).extra_order_by ≡ []
    pub replaced : (terms : List Text) (query : Query) → (order_by terms query).order_by ≡ terms
    pub no_default : (query : Query) → (order_by [] query).default_ordering ≡ false

  -- `qs.order_by(*terms)`, in these directions
  abbrev pub in_order : List Text → Query → Query
  in_order terms query = record {
    extra_order_by = (order_by terms query).extra_order_by;
    order_by = (order_by terms query).order_by;
    default_ordering = (order_by terms query).default_ordering;
    standard_ordering = true;
  }

  -- `_apply_ordering` of a queryset: the ordering that the database gets; none is the error of a
  -- term.
  unfoldable pub apply_ordering : Model → Query → Ordering → Option (List Text) → Option (List Term)
  unfolding effective_queryset_ordering ordered_terms validate_ordering_terms
  apply_ordering model query ordering allowed =
      if is_falsy ordering
      then some (ordered_terms model (effective_queryset_ordering model query))
      else elim (validate_ordering_terms model ordering allowed) [
        | none ↦ none
        | some terms ↦
            some (ordered_terms model (effective_queryset_ordering model (in_order terms query)))
      ]

  -- An ordering is applied with the allowlist that it was resolved with.
  unfoldable pub apply_resolved :
      Model → Query → Option (Ordering × Option (List Text)) → Option (List Term)
  unfolding apply_ordering
  apply_resolved model query none = none
  apply_resolved model query (some (ordering, allowed)) =
      apply_ordering model query ordering allowed

  -- What the limit/offset and the page paginator do with the ordering of a queryset.
  unfoldable pub order_queryset :
      Model → Query → Option Ordering → Ordering → Option (List Text) → Option (List Term)
  unfolding resolve_ordering apply_resolved
  order_queryset model query requested default allowed =
      apply_resolved model query (resolve_ordering requested default allowed)
