-- ===== src/Cursor/Keyset.antt =====
-- Which rows stand behind a cursor: the database's predicate and the test in memory.
use django_graphex.Common.{
  ℕ, Bool, true, false, not, ◌&&◌, ◌||◌, ◌≡◌, Option, none, some, ltb, leb, ◌==◌, if◌then◌else◌,
  arith,
}

-- A row, as the paginator reads it: its value of the ordering column and its primary key, numbered
-- in the column's order. None is NULL.
pub record Row : Type 0 where
  pub value : Option ℕ
  pub pk : ℕ

-- `_sort_key`
abbrev pub sort_key : Option ℕ → Bool × ℕ
sort_key none = (true, 0)
sort_key (some v) = (false, v)

abbrev bool_lt : Bool → Bool → Bool
bool_lt a b = not a && b

-- Python's order of tuples
abbrev pub key_lt : Bool × ℕ → Bool × ℕ → Bool
key_lt (false, m) (false, n) = ltb m n
key_lt (true, m) (true, n) = ltb m n
key_lt (false, m) (true, n) = true
key_lt (true, m) (false, n) = false

abbrev pub key_eq : Bool × ℕ → Bool × ℕ → Bool
key_eq (false, m) (false, n) = m == n
key_eq (true, m) (true, n) = m == n
key_eq (false, m) (true, n) = false
key_eq (true, m) (false, n) = false

-- `a < b if descending else a > b`
abbrev pub is_beyond : Bool → Bool × ℕ → Bool × ℕ → Bool
is_beyond descending a b = if descending then key_lt a b else key_lt b a

abbrev pub tied : Bool → Option ℕ → ℕ → Bool
tied descending none pk = false
tied descending (some boundary) pk =
    is_beyond descending (sort_key (some pk)) (sort_key (some boundary))

-- `_inmemory_after_cursor`
unfoldable pub inmemory_after_cursor : Row → Bool → Option ℕ → Option ℕ → Bool
inmemory_after_cursor obj descending value pk =
    if key_eq (sort_key obj.value) (sort_key value)
    then tied descending pk obj.pk
    else is_beyond descending (sort_key obj.value) (sort_key value)

-- A lookup `field__gt` or `field__lt`: SQL's comparison is never true of NULL.
abbrev pub compares : Bool → Option ℕ → ℕ → Bool
compares descending none v = false
compares descending (some x) v = if descending then ltb x v else ltb v x

-- `field__gte` or `field__lte`
abbrev pub compares_or_equals : Bool → Option ℕ → ℕ → Bool
compares_or_equals descending none v = false
compares_or_equals descending (some x) v = if descending then leb x v else leb v x

abbrev pub equals : Option ℕ → ℕ → Bool
equals none v = false
equals (some x) v = x == v

abbrev pub is_null : Option ℕ → Bool
is_null none = true
is_null (some x) = false

-- `bounds`: the neighbours above and below of a finer Decimal boundary, and whether a stored value
-- can equal it.
pub record Bounds : Type 0 where
  pub upper : ℕ
  pub lower : ℕ
  pub is_exact : Bool

abbrev pub boundary_of : Option Bounds → ℕ → ℕ
boundary_of none value = value
boundary_of (some bounds) value = bounds.upper

abbrev pub strictly_beyond : Bool → Option Bounds → ℕ → Option ℕ → Bool
strictly_beyond descending none value x = compares descending x value
strictly_beyond descending (some bounds) value x =
    if bounds.is_exact
    then compares descending x bounds.upper
    else compares_or_equals descending x (if descending then bounds.lower else bounds.upper)

abbrev pub pk_tied : Bool → Option Bounds → ℕ → ℕ → Row → Bool
pk_tied descending none value pk obj =
    equals obj.value value && compares descending (some obj.pk) pk
pk_tied descending (some bounds) value pk obj =
    if bounds.is_exact
    then equals obj.value bounds.upper && compares descending (some obj.pk) pk
    else false

-- `_keyset_predicate`, of a row
unfoldable pub keyset_predicate : Bool → Option ℕ → ℕ → Option Bounds → Row → Bool
keyset_predicate descending none pk bounds obj =
    let within_null_group = is_null obj.value && compares descending (some obj.pk) pk in
    if descending then within_null_group || not (is_null obj.value) else within_null_group
keyset_predicate descending (some value) pk bounds obj =
    let body =
      strictly_beyond descending bounds value obj.value || pk_tied descending bounds value pk obj in
    if descending then body else body || is_null obj.value

-- `_legacy_value_predicate`, of a row
unfoldable pub legacy_value_predicate : Bool → Option ℕ → Option Bounds → Row → Bool
legacy_value_predicate descending none bounds obj =
    if descending then not (is_null obj.value) else false
legacy_value_predicate descending (some value) bounds obj =
    strictly_beyond descending bounds value obj.value

-- The database's predicate for a cursor with a key, where the boundary is no finer Decimal, selects
-- exactly the rows that the test in memory finds behind the cursor, NULL values included.
pub keyset_predicate-inmemory :
    (descending : Bool) (value : Option ℕ) (pk : ℕ) (obj : Row)
    → keyset_predicate descending value pk none obj
      ≡ inmemory_after_cursor obj descending value (some pk)
unfolding keyset_predicate inmemory_after_cursor
keyset_predicate-inmemory descending value pk obj = ground arith

-- A NULL row behind a cursor that holds a value, in ascending order.
abbrev pub is_trailing_null : Bool → Option ℕ → Row → Bool
is_trailing_null descending none obj = false
is_trailing_null descending (some value) obj = not descending && is_null obj.value

-- The database's predicate for a cursor without a key selects the rows that the test in memory
-- finds behind it, but for one group: in ascending order, behind a cursor that holds a value, the
-- NULL rows are found in memory and not by the database.
pub legacy_value_predicate-inmemory :
    (descending : Bool) (value : Option ℕ) (obj : Row)
    → legacy_value_predicate descending value none obj ≡ (
        inmemory_after_cursor obj descending value none
        && not (is_trailing_null descending value obj))
unfolding legacy_value_predicate inmemory_after_cursor
legacy_value_predicate-inmemory descending value obj = ground arith
