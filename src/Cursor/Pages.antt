-- ===== src/Cursor/Pages.antt =====
-- `paginate_queryset` in memory, and reading page after page.
use django_graphex.Common.{
  ℕ, zero, suc, ◌+◌, Bool, true, false, ◌||◌, Option, none, some, List, [], ◌∷◌, ◌++◌, ℤ, ◌==◌,
  if◌then◌else◌,
}
use django_graphex.Pagination.Size.{Result, ok, graphql_error, PageError, resolve_page_size}
use django_graphex.Pagination.Paginators.{slice}
use django_graphex.Cursor.Codec.{Text, Base64, encode_cursor, decode_cursor_parts}
use django_graphex.Cursor.Keyset.{Row, inmemory_after_cursor}
use django_graphex.Cursor.Order.{inmemory_keyset_order}

-- How the two columns are printed, and read back by `_coerce_like`; none is its error.
pub record Columns (Token : Type 0) : Type 0 where
  pub base64 : Base64 Token
  pub str_value : ℕ → Text
  pub coerce_value : Text → Option ℕ
  pub str_pk : ℕ → Text
  pub coerce_pk : Text → Option ℕ

-- The rows of a page, or the error that the client sees.
pub data Page : Type 0 where
  rows : List Row → Page
  invalid_cursor : Page
  invalid_size : PageError → Page

abbrev pub has_value : List Row → Bool
has_value [] = false
has_value (row ∷ items) = (elim row.value [ none ↦ false | some v ↦ true ]) || has_value items

-- A boundary that is compared; a text beside rows that are all NULL is compared with none of them.
abbrev pub coerce_like : Bool → (Text → Option ℕ) → Option Text → Option (Option ℕ)
coerce_like sampled coerce none = some none
coerce_like sampled coerce (some raw) =
    if sampled then elim (coerce raw) [ none ↦ none | some v ↦ some (some v) ] else some (some 0)

-- The index of the first row behind a boundary, or the number of rows.
abbrev pub first_index : (Row → Bool) → List Row → ℕ
first_index p [] = 0
first_index p (row ∷ items) = let rest = first_index p items in if p row then 0 else suc rest

abbrev pub is_some_row : List Row → Bool
is_some_row [] = false
is_some_row (row ∷ items) = true

unfoldable pub start_after : List Row → Bool → Option (Option ℕ) → Option (Option ℕ) → Option ℕ
unfolding inmemory_after_cursor
start_after items descending (some value) (some pk) =
    some (first_index (λ (obj : Row). inmemory_after_cursor obj descending value pk) items)
start_after items descending value pk = none

unfoldable pub start_of_parts :
    {Token : Type 0}
    → Columns Token
    → List Row
    → Bool
    → Option (Option Text × Option Text)
    → Option ℕ
unfolding start_after
start_of_parts columns items descending none = none
start_of_parts columns items descending (some (value, pk)) =
    start_after items descending (coerce_like (has_value items) columns.coerce_value value)
      (coerce_like (is_some_row items) columns.coerce_pk pk)

-- `_inmemory_cursor_start`; none is the error of an invalid cursor.
unfoldable pub inmemory_cursor_start :
    {Token : Type 0} → Columns Token → List Row → Bool → Option Token → Option ℕ
unfolding decode_cursor_parts start_of_parts
inmemory_cursor_start columns items descending none = some 0
inmemory_cursor_start columns items descending (some cursor) =
    start_of_parts columns items descending (decode_cursor_parts columns.base64 cursor)

abbrev pub default_cursor_page_size : ℕ
default_cursor_page_size = 20

-- `_page_size`
unfoldable pub cursor_page_size : Option ℤ → Option ℤ → Option ℕ → Result ℕ
unfolding resolve_page_size
cursor_page_size first page_size max_page_size =
    elim (resolve_page_size first page_size max_page_size) [
      | graphql_error e ↦ graphql_error e
      | ok none ↦ ok default_cursor_page_size
      | ok (some n) ↦ ok (if n == 0 then default_cursor_page_size else n)
    ]

-- `items[start : start + page_size]`
abbrev pub page_at : ℕ → List Row → Option ℕ → Page
page_at size items none = invalid_cursor
page_at size items (some start) = rows (slice start (start + size) items)

abbrev pub page_of : Result ℕ → List Row → Option ℕ → Page
page_of (graphql_error e) items start = invalid_size e
page_of (ok size) items start = page_at size items start

-- `paginate_queryset` of a list; the size is checked before the cursor.
unfoldable pub paginate_cursor :
    {Token : Type 0} → Columns Token → Bool → Result ℕ → List Row → Option Token → Page
unfolding inmemory_keyset_order inmemory_cursor_start
paginate_cursor columns descending size qs cursor =
    let items = inmemory_keyset_order qs descending in
    page_of size items (inmemory_cursor_start columns items descending cursor)

abbrev pub str_option : (ℕ → Text) → Option ℕ → Option Text
str_option str none = none
str_option str (some v) = some (str v)

-- `_encode_row_cursor`
unfoldable pub encode_row_cursor : {Token : Type 0} → Columns Token → Row → Token
unfolding encode_cursor
encode_row_cursor columns row =
    encode_cursor columns.base64 (str_option columns.str_value row.value)
      (some (columns.str_pk row.pk))

abbrev pub last_row : List Row → Option Row
last_row [] = none
last_row (row ∷ []) = some row
last_row (row ∷ next ∷ items) = last_row (next ∷ items)

unfoldable pub behind_row :
    {Token : Type 0} → Columns Token → List Row → Option Row → (Option Token → List Row) → List Row
unfolding encode_row_cursor
behind_row columns page none read = []
behind_row columns page (some row) read = page ++ read (some (encode_row_cursor columns row))

unfoldable pub behind_page :
    {Token : Type 0} → Columns Token → Page → (Option Token → List Row) → List Row
unfolding behind_row
behind_page columns (rows page) read = behind_row columns page (last_row page) read
behind_page columns invalid_cursor read = []
behind_page columns (invalid_size e) read = []

-- A client that reads `n` pages, each from the cursor of the last row of the one before.
unfoldable pub read_pages :
    {Token : Type 0} → Columns Token → Bool → Result ℕ → List Row → ℕ → Option Token → List Row
unfolding paginate_cursor behind_page
read_pages columns descending size qs zero cursor = []
read_pages columns descending size qs (suc n) cursor =
    behind_page columns (paginate_cursor columns descending size qs cursor)
      (read_pages columns descending size qs n)
