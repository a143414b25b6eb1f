-- ===== src/Pagination/Paginators.antt =====
-- `paginate_queryset` and `prefetch_window_slice` of the limit/offset and the page paginator.
use django_graphex.Common.{
  ℕ, zero, suc, ◌+◌, ◌-◌, ◌*◌, Option, none, some, List, length, take, drop, ℤ, pos, negsuc,
}
use django_graphex.Pagination.Size.{
  Result, ok, graphql_error, invalid_offset, zero_page, resolve_page_size,
}
use django_graphex.Pagination.Terms.{Ordering}
use django_graphex.Pagination.Source.{
  Source, resolved_ordering, normalized_ordering, ordered, ordered_or_natural,
}

infixl 5 ◌>>=◌
abbrev pub ◌>>=◌ {ℓ κ} : {A : Type ℓ} {B : Type κ} → Result A → (A → Result B) → Result B
ok a >>= f = f a
graphql_error e >>= f = graphql_error e

-- `rows[start:stop]`, for bounds that are not negative.
abbrev pub slice {ℓ} : {A : Type ℓ} → ℕ → ℕ → List A → List A
slice start stop rows = take (stop - start) (drop start rows)

-- `kwargs.get(offset, 0) or 0`, and the refusal of a negative one.
abbrev pub offset_of : Option ℤ → Result ℕ
offset_of none = ok 0
offset_of (some (pos n)) = ok n
offset_of (some (negsuc n)) = graphql_error (invalid_offset (negsuc n))

-- A page argument that is left out, or null, is page 1.
abbrev pub page_of : Option ℤ → ℤ
page_of none = pos 1
page_of (some page) = page

abbrev pub nonzero : ℤ → Result ℤ
nonzero (pos zero) = graphql_error zero_page
nonzero (pos (suc n)) = ok (pos (suc n))
nonzero (negsuc n) = ok (negsuc n)

-- The first row of a page, `size * (page - 1)`; a negative page counts from the end,
-- `max(0, count + size * page)`.
abbrev pub start_of : ℤ → ℕ → ℕ → ℕ
start_of (pos n) size count = size * (n - 1)
start_of (negsuc n) size count = count - size * suc n

-- The limits of a paginator, and what one query asks for.
pub record Sizes : Type 0 where
  pub default : Option ℤ
  pub maximum : Option ℕ

module _ {A : Type 0} (sizes : Sizes) (source : Source A) where
  -- `LimitOffsetGraphqlPagination.paginate_queryset`
  unfoldable pub paginate_limit_offset : Option ℤ → Option ℤ → List A → Result (List A)
  paginate_limit_offset limit offset rows = do
    size ← resolve_page_size limit sizes.default sizes.maximum
    order ← resolved_ordering source
    elim size [
      | none ↦ ordered_or_natural source order rows
      | some n ↦ do
        start ← offset_of offset
        items ← ordered source order rows
        ok (slice start (start + n) items)
    ]

  -- `PageGraphqlPagination.paginate_queryset`: `ok none` is its None, where no size is set.
  unfoldable pub paginate_page : Option ℤ → Option ℤ → List A → Result (Option (List A))
  paginate_page page requested rows = do
    size ← resolve_page_size requested sizes.default sizes.maximum
    number ← nonzero (page_of page)
    elim size [
      | none ↦ ok none
      | some n ↦ do
        order ← resolved_ordering source
        items ← ordered source order rows
        ok (
            some
              (slice (start_of number n (length rows)) (start_of number n (length rows) + n) items))
    ]

  -- The window that the database is asked for: its first row, its size and the normalized ordering,
  -- whoever supplied it.
  -- `LimitOffsetGraphqlPagination.prefetch_window_slice`
  unfoldable pub window_limit_offset : Option ℤ → Option ℤ → Result (Option (ℕ × ℕ × Ordering))
  window_limit_offset limit offset = do
    size ← resolve_page_size limit sizes.default sizes.maximum
    elim size [
      | none ↦ ok none
      | some n ↦ do
        start ← offset_of offset
        order ← normalized_ordering source
        ok (some (start, n, order))
    ]

  -- `PageGraphqlPagination.prefetch_window_slice`, which leaves a page that is not positive to
  -- the other path.
  unfoldable pub window_page : Option ℤ → Option ℤ → Result (Option (ℕ × ℕ × Ordering))
  window_page page requested = do
    size ← resolve_page_size requested sizes.default sizes.maximum
    elim size [
      | none ↦ ok none
      | some n ↦ elim (page_of page) [
        | negsuc k ↦ ok none
        | pos k ↦ elim k [
          | zero ↦ ok none
          | suc before ↦ do order ← normalized_ordering source; ok (some (n * before, n, order))
        ]
      ]
    ]
