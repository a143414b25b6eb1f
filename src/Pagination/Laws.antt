-- ===== src/Pagination/Laws.antt =====
-- What a client gets: sizes within bounds, pages that put together are all rows, and windows that
-- are the pages.
use django_graphex.Common.{
  true, ℕ, zero, suc, ◌+◌, ◌-◌, ◌*◌, ◌≤◌, ◌<◌, ◌≡◌, refl, ap, ◌∙◌, true, Option, none, some, List,
  [], ◌++◌, length, take, drop, min, ℤ, pos, negsuc, arith, inl, inr, ◌⊎◌,
}
use django_graphex.Pagination.Size.{
  Result, ok, graphql_error, positive_int, checked, resolve_page_size,
}
use django_graphex.Pagination.Paginators.{
  Sizes, slice, paginate_limit_offset, paginate_page, window_limit_offset, window_page, ◌>>=◌,
}
use django_graphex.Pagination.Terms.{Ordering}
use django_graphex.Pagination.Source.{
  Source, Resolved, resolved_ordering, normalized_ordering, ordered,
}
use django_graphex.Pagination.Provenance.{
  provenance, Result-cases, resolved_ordering-normalized_ordering,
}
use django_graphex.Pagination.Slices.{
  take-eq, take-drop, take-add, take-long, length-drop, slice-at,
}

-- `value` is the first of the requested size, the default and the maximum that is set.
pub data IsFirstSet : Option ℤ → Option ℤ → Option ℕ → ℤ → Type 0 where
  from_request :
      (value : ℤ) (default : Option ℤ) (maximum : Option ℕ)
      → IsFirstSet (some value) default maximum value
  from_default : (value : ℤ) (maximum : Option ℕ) → IsFirstSet none (some value) maximum value
  from_maximum : (m : ℕ) → IsFirstSet none none (some m) (pos m)

-- The least of a size and a maximum, if there is one.
abbrev pub IsCut : Option ℕ → ℕ → ℕ → Type 0
IsCut none k n = n ≡ k
IsCut (some m) k n = n ≡ min k m

-- What a resolved size promises, for each outcome.
abbrev pub SizeIsRight : Option ℤ → Option ℤ → Option ℕ → Result (Option ℕ) → Type 0
SizeIsRight requested default maximum (ok none) =
    (requested ≡ none) × (default ≡ none) × (maximum ≡ none)
SizeIsRight requested default maximum (ok (some n)) =
    (k : ℕ) × (0 < k) × IsFirstSet requested default maximum (pos k) × IsCut maximum k n
SizeIsRight requested default maximum (graphql_error e) =
    (value : ℤ) × IsFirstSet requested default maximum value
    × ((value ≡ pos 0) ⊎ ((k : ℕ) × (value ≡ negsuc k)))

positive_int-suc : (n : ℕ) → positive_int (pos (suc n)) true none ≡ some (suc n)
unfolding positive_int
positive_int-suc n = ground arith

checked-SizeIsRight :
    (requested default : Option ℤ) (maximum : Option ℕ) (value : ℤ)
    → IsFirstSet requested default maximum value
    → SizeIsRight requested default maximum (checked maximum value (positive_int value true none))
unfolding positive_int
checked-SizeIsRight requested default maximum (negsuc n) f = (negsuc n, f, inr (n, refl))
checked-SizeIsRight requested default maximum (pos zero) f = (pos 0, f, inl refl)
checked-SizeIsRight requested default none (pos (suc n)) f =
    rw (positive_int-suc n) (suc n, omega arith, f, refl)
checked-SizeIsRight requested default (some m) (pos (suc n)) f =
    rw (positive_int-suc n) (suc n, omega arith, f, refl)

-- The size is the first of the requested size, the default and the maximum that is set, cut to the
-- maximum: none exactly where all are unset, and an error only where that value is not positive.
pub resolve_page_size-SizeIsRight :
    (requested default : Option ℤ) (maximum : Option ℕ)
    → SizeIsRight requested default maximum (resolve_page_size requested default maximum)
unfolding resolve_page_size
resolve_page_size-SizeIsRight (some value) default maximum =
    checked-SizeIsRight (some value) default maximum value (from_request value default maximum)
resolve_page_size-SizeIsRight none (some value) maximum =
    checked-SizeIsRight none (some value) maximum value (from_default value maximum)
resolve_page_size-SizeIsRight none none (some m) =
    checked-SizeIsRight none none (some m) (pos m) (from_maximum m)
resolve_page_size-SizeIsRight none none none = (refl, refl, refl)

pred : (k : ℕ) → suc k - 1 ≡ k
pred k = omega arith

-- A client that reads the pages 1 to `k`, one after the other.
module _ {A : Type 0} (sizes : Sizes) (source : Source A) (requested : Option ℤ) where
  abbrev page_rows : Option (List A) → List A
  page_rows none = []
  page_rows (some rows) = rows

  unfoldable pub read_pages : ℕ → List A → Result (List A)
  read_pages zero rows = ok []
  read_pages (suc k) rows = do
    before ← read_pages k rows
    page ← paginate_page sizes source (some (pos (suc k))) requested rows
    ok (before ++ page_rows page)

  module _ (n : ℕ) (sized : resolve_page_size requested sizes.default sizes.maximum ≡ ok (some n))
      (order : Resolved) (given : resolved_ordering source ≡ ok order) (rows items : List A)
      (applied : ordered source order rows ≡ ok items) where
    page-positive :
        (k : ℕ)
        → paginate_page sizes source (some (pos (suc k))) requested rows
          ≡ ok (some (slice (n * (suc k - 1)) (n * (suc k - 1) + n) items))
    unfolding paginate_page
    page-positive k = rw (sized, given, applied, paginate_page) refl

    page-negative :
        (k : ℕ)
        → paginate_page sizes source (some (negsuc k)) requested rows
          ≡ ok (some (slice (length rows - n * suc k) (length rows - n * suc k + n) items))
    unfolding paginate_page
    page-negative k = rw (sized, given, applied, paginate_page) refl

    read_pages-take : (k : ℕ) → read_pages k rows ≡ ok (take (n * k) items)
    unfolding read_pages
    read_pages-take zero = ap ok (take-eq 0 (n * 0) items (omega arith))
    read_pages-take (suc k) =
        rw (read_pages-take k, page-positive k, read_pages)
          (ap ok (
            ap (λ (start : ℕ). take (n * k) items ++ slice start (start + n) items)
              (ap (λ (j : ℕ). n * j) (pred k))
            ∙ ap (λ (page : List A). take (n * k) items ++ page) (slice-at (n * k) n items)
            ∙ take-add (n * k) n items
            ∙ take-eq (n * k + n) (n * suc k) items (omega arith)))

-- Where a page size applies and the rows can be put in order, reading the pages from the first on
-- gives the ordered rows, each once and in order, as soon as the pages cover them.
pub read_pages-all :
    {A : Type 0} (sizes : Sizes) (source : Source A) (requested : Option ℤ) (n k : ℕ)
    (order : Resolved) (rows items : List A)
    → resolve_page_size requested sizes.default sizes.maximum ≡ ok (some n)
    → resolved_ordering source ≡ ok order
    → ordered source order rows ≡ ok items
    → length items ≤ n * k
    → read_pages sizes source requested k rows ≡ ok items
read_pages-all sizes source requested n k order rows items sized given applied le =
    read_pages-take sizes source requested n sized order given rows items applied k
    ∙ ap ok (take-long (n * k) items le)

-- The last `n` rows.
end_slice :
    {A : Type 0} (start n : ℕ) (items : List A)
    → start ≡ length items - n
    → slice start (start + n) items ≡ drop (length items - n) items
end_slice start n items e =
    slice-at start n items
    ∙ ap (λ (s : ℕ). take n (drop s items)) e
    ∙ take-long n (drop (length items - n) items)
        (omega (arith, length-drop (length items - n) items))

-- The page -1 is the end of the ordered rows: what stands before it and the page are all of them,
-- where the ordering keeps the number of rows.
pub paginate_page-last :
    {A : Type 0} (sizes : Sizes) (source : Source A) (requested : Option ℤ) (n : ℕ)
    (order : Resolved) (rows items : List A)
    → resolve_page_size requested sizes.default sizes.maximum ≡ ok (some n)
    → resolved_ordering source ≡ ok order
    → ordered source order rows ≡ ok items
    → length items ≡ length rows
    → (page : List A) × (paginate_page sizes source (some (negsuc 0)) requested rows
        ≡ ok (some page))
      × (take (length items - n) items ++ page ≡ items)
      × (length page ≡ min n (length items))
paginate_page-last sizes source requested n order rows items sized given applied same =
    let start = length rows - n * 1 in
    (
      slice start (start + n) items,
      page-negative sizes source requested n sized order given rows items applied 0,
      rw (end_slice start n items (omega arith)) (take-drop (length items - n) items),
      rw (end_slice start n items (omega arith))
          (omega (arith, length-drop (length items - n) items)),
    )

-- A window that the database is asked for selects the rows of the page: where a window is given,
-- paginating the rows is putting them in the window's order, with the allowlist if the client
-- supplied it, and slicing the window out.
pub window_page-paginate :
    {A : Type 0} (sizes : Sizes) (source : Source A) (page requested : Option ℤ) (rows : List A)
    (start n : ℕ) (order : Ordering)
    → window_page sizes source page requested ≡ ok (some (start, n, order))
    → paginate_page sizes source page requested rows ≡ (
        ordered source (order, provenance source.requested source.allowed_attnames) rows
        >>= λ items. ok (some (slice start (start + n) items)))
unfolding window_page paginate_page
window_page-paginate sizes source none requested rows start n order e =
    elim (Result-cases (normalized_ordering source)) [
      | inl (o, f) ↦ ground (arith, e, f, resolved_ordering-normalized_ordering source o f)
      | inr (error, f) ↦ ground (arith, e, f)
    ]
window_page-paginate sizes source (some (pos zero)) requested rows start n order e =
    elim (Result-cases (normalized_ordering source)) [
      | inl (o, f) ↦ ground (arith, e, f, resolved_ordering-normalized_ordering source o f)
      | inr (error, f) ↦ ground (arith, e, f)
    ]
window_page-paginate sizes source (some (pos (suc k))) requested rows start n order e =
    elim (Result-cases (normalized_ordering source)) [
      | inl (o, f) ↦ ground (arith, e, f, resolved_ordering-normalized_ordering source o f, pred k)
      | inr (error, f) ↦ ground (arith, e, f)
    ]
window_page-paginate sizes source (some (negsuc k)) requested rows start n order e =
    elim (Result-cases (normalized_ordering source)) [
      | inl (o, f) ↦ ground (arith, e, f, resolved_ordering-normalized_ordering source o f)
      | inr (error, f) ↦ ground (arith, e, f)
    ]

-- The same for limit and offset: where a window is given, paginating the rows is putting them in
-- the window's order, with the allowlist if the client supplied it, and slicing the window out.
pub window_limit_offset-paginate :
    {A : Type 0} (sizes : Sizes) (source : Source A) (limit offset : Option ℤ) (rows : List A)
    (start n : ℕ) (order : Ordering)
    → window_limit_offset sizes source limit offset ≡ ok (some (start, n, order))
    → paginate_limit_offset sizes source limit offset rows ≡ (
        ordered source (order, provenance source.requested source.allowed_attnames) rows
        >>= λ items. ok (slice start (start + n) items))
unfolding window_limit_offset paginate_limit_offset
window_limit_offset-paginate sizes source limit offset rows start n order e =
    elim (Result-cases (normalized_ordering source)) [
      | inl (o, f) ↦ ground (arith, e, f, resolved_ordering-normalized_ordering source o f)
      | inr (error, f) ↦ ground (arith, e, f)
    ]
