-- ===== src/Pagination/Source.antt =====
-- Where a paginator's rows come from, and the ordering that it resolves for them.
use django_graphex.Common.{
  Bool, true, false, not, ◌||◌, Option, none, some, List, [], ◌∷◌, if◌then◌else◌,
}
use django_graphex.Pagination.Size.{Result, ok, graphql_error, invalid_ordering}
use django_graphex.Pagination.Terms.{
  Text, Ordering, joined, listed, Model, is_falsy, normalize_ordering, resolve_ordering,
  validate_ordering_terms,
}

-- `requested` is the client's argument and `default` the paginator's `ordering`; `allowed_attnames`
-- is its `ordering_allowed_attnames`. `order_rows` is what `_apply_ordering` makes of rows.
pub record Source (A : Type 0) : Type 0 where
  pub model : Model
  -- a list from the prefetch cache, and no queryset
  pub in_memory : Bool
  pub requested : Option Ordering
  pub default : Ordering
  pub allowed_attnames : Option (List Text)
  pub order_rows : Ordering → Option (List Text) → List A → Result (List A)

abbrev pub Resolved : Type 0
Resolved = Ordering × Option (List Text)

abbrev pub in_result : {A : Type 0} → Option A → Result A
in_result none = graphql_error (invalid_ordering "Invalid ordering field")
in_result (some a) = ok a

-- `kwargs.pop(ordering_param, None) or self.ordering`
abbrev pub argument_or_default : Option Ordering → Ordering → Ordering
argument_or_default none default = default
argument_or_default (some requested) default = if is_falsy requested then default else requested

abbrev pub is_void : {A : Type 0} → List A → Bool
is_void [] = true
is_void (row ∷ rows) = false

abbrev pub passes_check : Option (List Text) → Bool
passes_check none = false
passes_check (some terms) = true

unfoldable pub server_ordering : Model → Ordering
unfolding validate_ordering_terms
server_ordering model =
    if is_void model.meta_ordering
    then joined model.pk_attname
    else if passes_check (validate_ordering_terms model (listed model.meta_ordering) none)
    then listed model.meta_ordering
    else joined model.pk_attname

-- `_pk_tiebreak_ordering`
unfoldable pub pk_tiebreak_ordering : {A : Type 0} → Model → List A → Resolved → Resolved
unfolding server_ordering
pk_tiebreak_ordering model items (order, allowed) =
    if not (is_falsy order) || is_void items
    then (order, allowed)
    else (server_ordering model, none)

module _ {A : Type 0} (source : Source A) where
  unfoldable pub resolved_ordering : Result Resolved
  unfolding resolve_ordering
  resolved_ordering =
      in_result (resolve_ordering source.requested source.default source.allowed_attnames)

  unfoldable pub normalized_ordering : Result Ordering
  unfolding normalize_ordering
  normalized_ordering =
      in_result (normalize_ordering (argument_or_default source.requested source.default))

  -- Rows without an ordering stay as they are.
  unfoldable pub ordered_or_natural : Resolved → List A → Result (List A)
  ordered_or_natural (order, allowed) rows =
      if is_falsy order then ok rows else source.order_rows order allowed rows

  -- The rows that a page is sliced from.
  unfoldable pub ordered : Resolved → List A → Result (List A)
  unfolding pk_tiebreak_ordering ordered_or_natural
  ordered (order, allowed) rows =
      if source.in_memory
      then ordered_or_natural (pk_tiebreak_ordering source.model rows (order, allowed)) rows
      else source.order_rows order allowed rows
