-- ===== src/Pagination/Tests.antt =====
-- Pages of five rows, two at a time.
use django_graphex.Common.{
  ℕ, count, ◌+◌, ◌-◌, ◌≡◌, ◌++◌, refl, true, Bool, Option, ◌==◌, not, false, if◌then◌else◌, none,
  some, List, [], ◌∷◌, length, take, min, pos, negsuc, arith,
}
use django_graphex.Pagination.Size.{Result, ok, positive_int, resolve_page_size}
use django_graphex.Pagination.Paginators.{
  Sizes, slice, paginate_limit_offset, paginate_page, window_limit_offset, window_page, ◌>>=◌,
}
use django_graphex.Pagination.Source.{Source, resolved_ordering, normalized_ordering, ordered}
use django_graphex.Pagination.Laws.{
  SizeIsRight, read_pages, resolve_page_size-SizeIsRight, read_pages-all, paginate_page-last,
  window_page-paginate, window_limit_offset-paginate,
}
use django_graphex.StrConv.Snake.{codes}
use django_graphex.Pagination.Terms.{
  Text, Ordering, joined, listed, Model, normalize_ordering, resolve_ordering,
  normalize_ordering_term, among, pk_names,
}
use django_graphex.Pagination.Inmemory.{inmemory_order, append_model_pk_ordering}
use django_graphex.Pagination.Determined.{inmemory_order-determined}
use django_graphex.Pagination.Queryset.{
  Query, Term, plain, desc_nulls_first, is_none, order_queryset, effective_queryset_ordering,
  ordered_terms,
}

abbrev sizes : Sizes
sizes = record { default = some (pos 2); maximum = some 3 }

abbrev rows : List ℕ
rows = 1 ∷ 2 ∷ 3 ∷ 4 ∷ 5 ∷ []

abbrev post : Model
post = record {
  concrete_attnames = codes "id" ∷ codes "created_at" ∷ codes "secret" ∷ [];
  nullable_attnames = codes "created_at" ∷ [];
  pk_attname = codes "id";
  pk_name = codes "id";
  meta_ordering = codes "-id" ∷ [];
}

abbrev natural : Ordering → Option (List Text) → List ℕ → Result (List ℕ)
natural order allowed items = ok items

abbrev none_given : Ordering
none_given = listed []

abbrev source : Source ℕ
source = record {
  model = post;
  in_memory = false;
  requested = none;
  default = none_given;
  allowed_attnames = none;
  order_rows = natural;
}

natural_order : resolved_ordering source ≡ ok (none_given, none)
unfolding resolved_ordering resolve_ordering normalize_ordering
natural_order = refl

natural_rows : ordered source (none_given, none) rows ≡ ok rows
unfolding ordered
natural_rows = refl

resolve_page_size-SizeIsRight_example :
    SizeIsRight
      (some (pos 9))
      (some (pos 2))
      (some 3)
      (resolve_page_size (some (pos 9)) (some (pos 2)) (some 3))
resolve_page_size-SizeIsRight_example =
    resolve_page_size-SizeIsRight (some (pos 9)) (some (pos 2)) (some 3)

sized : resolve_page_size none sizes.default sizes.maximum ≡ ok (some 2)
unfolding resolve_page_size positive_int
sized = refl

read_pages-all_example : read_pages sizes source none 3 rows ≡ ok rows
read_pages-all_example =
    read_pages-all sizes source none 2 3 (none_given, none) rows rows sized natural_order
      natural_rows (omega arith)

paginate_page-last_example :
    (page : List ℕ) × (paginate_page sizes source (some (negsuc 0)) none rows ≡ ok (some page))
    × (take (length rows - 2) rows ++ page ≡ rows)
    × (length page ≡ min 2 (length rows))
paginate_page-last_example =
    paginate_page-last sizes source none 2 (none_given, none) rows rows sized natural_order
      natural_rows refl

window : window_page sizes source (some (pos 2)) none ≡ ok (some (2, 2, none_given))
unfolding window_page normalized_ordering normalize_ordering resolve_page_size positive_int
window = refl

window_page-paginate_example :
    paginate_page sizes source (some (pos 2)) none rows
    ≡ (ordered source (none_given, none) rows >>= λ items. ok (some (slice 2 (2 + 2) items)))
window_page-paginate_example =
    window_page-paginate sizes source (some (pos 2)) none rows 2 2 none_given window

window_at : window_limit_offset sizes source none (some (pos 1)) ≡ ok (some (1, 2, none_given))
unfolding window_limit_offset normalized_ordering normalize_ordering resolve_page_size positive_int
window_at = refl

window_limit_offset-paginate_example :
    paginate_limit_offset sizes source none (some (pos 1)) rows
    ≡ (ordered source (none_given, none) rows >>= λ items. ok (slice 1 (1 + 2) items))
window_limit_offset-paginate_example =
    window_limit_offset-paginate sizes source none (some (pos 1)) rows 1 2 none_given window_at

abbrev newest_first : Ordering
newest_first = joined (codes "-createdAt, pk")

abbrev shown : List Text
shown = codes "id" ∷ codes "created_at" ∷ []

-- A query in the way of the ORM's documentation.
abbrev order_by : List Text → Query → Query
order_by terms query = record {
  extra_order_by = [];
  order_by = terms;
  default_ordering = not (is_none terms);
  standard_ordering = query.standard_ordering;
}

abbrev plain_query : Query
plain_query = record {
  extra_order_by = [];
  order_by = [];
  default_ordering = true;
  standard_ordering = true;
}

abbrev sorted_by : List Term
sorted_by = desc_nulls_first (codes "created_at") ∷ plain (codes "pk") ∷ []

-- A column that the type hides is refused.
hidden :
    order_queryset order_by post plain_query
      (some (joined (codes "secret")))
      none_given
      (some shown)
    ≡ none
unfolding order_queryset codes
hidden = refl

-- The same column as the configured ordering is not, and the key is appended.
configured :
    order_queryset order_by post plain_query none (joined (codes "secret")) (some shown)
    ≡ some (plain (codes "secret") ∷ plain (codes "id") ∷ [])
unfolding order_queryset effective_queryset_ordering ordered_terms codes
configured = refl

-- An ordering without a term leaves the model's own.
empty_ordering :
    order_queryset order_by post plain_query (some (joined (codes ","))) none_given (some shown)
    ≡ some (plain (codes "-id") ∷ [])
unfolding order_queryset effective_queryset_ordering ordered_terms codes
empty_ordering = refl

-- A repeated direction is refused.
repeated : normalize_ordering_term (codes "+-id") ≡ none
unfolding normalize_ordering_term codes
repeated = refl

-- Rows are pairs of a key and a time that may be missing.
abbrev Post : Type 0
Post = ℕ × Option ℕ

abbrev attribute : Text → Post → Option ℕ
attribute [] row = none
attribute (c ∷ name) row = if c == b'i' then some row.0 else row.1

abbrev posts : List Post
posts = (3, some 5) ∷ (2, none) ∷ (1, some 5) ∷ (4, some 7) ∷ []

abbrev by_time : Ordering
by_time = joined (codes "-createdAt")

-- The missing time comes first, and the key decides between equal times.
latest :
    inmemory_order attribute post posts by_time none
    ≡ some ((2, none) ∷ (4, some 7) ∷ (1, some 5) ∷ (3, some 5) ∷ [])
unfolding inmemory_order codes append_model_pk_ordering
latest = refl

-- Rows that are their keys.
abbrev time : ℕ → Option ℕ
time row = if row == 2 then none else some 5

abbrev column : Text → ℕ → Option ℕ
column name row = if among name (pk_names post) then some row else time row

column-pk : (name : Text) (row : ℕ) → among name (pk_names post) ≡ true → column name row ≡ some row
column-pk name row e = rw e refl

reordered : (p : ℕ → Bool) → count p (1 ∷ 2 ∷ 3 ∷ []) ≡ count p (3 ∷ 1 ∷ 2 ∷ [])
reordered p = omega arith

inmemory_order-determined_example :
    inmemory_order column post (1 ∷ 2 ∷ 3 ∷ []) by_time none
    ≡ inmemory_order column post (3 ∷ 1 ∷ 2 ∷ []) by_time none
unfolding codes
inmemory_order-determined_example =
    inmemory_order-determined column post (λ row. row) (λ x y e. e) column-pk (1 ∷ 2 ∷ 3 ∷ [])
      (3 ∷ 1 ∷ 2 ∷ []) by_time none refl refl reordered
