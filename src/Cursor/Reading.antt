-- ===== src/Cursor/Reading.antt =====
-- Reading page after page gives every row once, in the order of the keyset.
use django_graphex.Common.{
  ℕ, zero, suc, ◌≤◌, Bool, ◌≡◌, refl, sym, ◌∙◌, ap, subst, Option, none, some, List, [], ◌∷◌, ◌++◌,
  take, drop, length, count, if◌then◌else◌, Bool-cases, inl, inr, ◌+◌, arith,
}
use django_graphex.Pagination.Size.{ok}
use django_graphex.Pagination.Slices.{take-drop, slice-at, length-drop}
use django_graphex.Cursor.Keyset.{Row}
use django_graphex.Cursor.Order.{
  inmemory_keyset_order, IsOrdered, AreDistinct, insert_row, sort_rows, by_pk, by_value,
  inmemory_keyset_order-IsOrdered,
}
use django_graphex.Cursor.Pages.{
  Columns, Page, rows, page_of, last_row, inmemory_cursor_start, paginate_cursor, encode_row_cursor,
  behind_row, behind_page, read_pages,
}
use django_graphex.Cursor.Resume.{IsReadBack, drop-inmemory_cursor_start, append_assoc}

length-insert_row :
    (before : Row → Row → Bool) (x : Row) (ys : List Row)
    → length (insert_row before x ys) ≡ suc (length ys)
length-insert_row before x [] = refl
length-insert_row before x (y ∷ ys) = ground (arith, length-insert_row before x ys)

length-sort_rows :
    (before : Row → Row → Bool) (xs : List Row) → length (sort_rows before xs) ≡ length xs
length-sort_rows before [] = refl
length-sort_rows before (x ∷ xs) =
    omega (arith, length-insert_row before x (sort_rows before xs), length-sort_rows before xs)

length-keyset_order :
    (items : List Row) (descending : Bool)
    → length (inmemory_keyset_order items descending) ≡ length items
unfolding inmemory_keyset_order
length-keyset_order items descending =
    length-sort_rows (by_value descending) (sort_rows (by_pk descending) items)
    ∙ length-sort_rows (by_pk descending) items

count-insert_row :
    (p : Row → Bool) (before : Row → Row → Bool) (x : Row) (ys : List Row)
    → count p (insert_row before x ys) ≡ (if p x then 1 else 0) + count p ys
count-insert_row p before x [] = refl
count-insert_row p before x (y ∷ ys) = elim (Bool-cases (before y x)) [
  | inl e ↦ rw e (let same = count-insert_row p before x ys in omega (arith, same))
  | inr e ↦ rw e refl
]

count-sort_rows :
    (p : Row → Bool) (before : Row → Row → Bool) (xs : List Row)
    → count p (sort_rows before xs) ≡ count p xs
count-sort_rows p before [] = refl
count-sort_rows p before (x ∷ xs) =
    omega (arith, count-insert_row p before x (sort_rows before xs), count-sort_rows p before xs)

count-keyset_order :
    (p : Row → Bool) (items : List Row) (descending : Bool)
    → count p (inmemory_keyset_order items descending) ≡ count p items
unfolding inmemory_keyset_order
count-keyset_order p items descending =
    count-sort_rows p (by_value descending) (sort_rows (by_pk descending) items)
    ∙ count-sort_rows p (by_pk descending) items

-- The last row of a page that holds one.
last_row-split :
    (x : Row) (xs : List Row)
    → (c : List Row) × (row : Row) × (last_row (x ∷ xs) ≡ some row) × (x ∷ xs ≡ c ++ (row ∷ []))
last_row-split x [] = ([], x, refl, refl)
last_row-split x (y ∷ ys) =
    let (c, row, e, f) = last_row-split y ys in (x ∷ c, row, e, ap (λ (l : List Row). x ∷ l) f)

module _ {Token : Type 0} (columns : Columns Token) (back : IsReadBack columns) (descending : Bool)
    (k : ℕ) (qs : List Row) where
  abbrev items : List Row
  items = inmemory_keyset_order qs descending

  -- Where the rows `b` are left, the cursor finds the first of them.
  abbrev FindsIn : List Row → Option Token → List Row → Type 0
  FindsIn ordered cursor b =
      (start : ℕ) × (inmemory_cursor_start columns ordered descending cursor ≡ some start)
      × (drop start ordered ≡ b)

  abbrev Finds : Option Token → List Row → Type 0
  Finds cursor b = FindsIn items cursor b

  page-Finds :
      (cursor : Option Token) (b : List Row)
      → Finds cursor b
      → paginate_cursor columns descending (ok (suc k)) qs cursor ≡ rows (take (suc k) b)
  unfolding paginate_cursor
  page-Finds cursor b (start, e, f) =
      ap (page_of (ok (suc k)) items) e
      ∙ ap rows (slice-at start (suc k) items ∙ ap (λ (l : List Row). take (suc k) l) f)

  read_pages-rest :
      (n : ℕ) (a b : List Row) (cursor : Option Token)
      → items ≡ a ++ b
      → IsOrdered descending items
      → Finds cursor b
      → length b ≤ n
      → read_pages columns descending (ok (suc k)) qs n cursor ≡ b
  unfolding read_pages behind_page behind_row
  read_pages-rest zero a [] cursor split o found le = refl
  read_pages-rest zero a (x ∷ b) cursor split o found le = absurd (omega arith)
  read_pages-rest (suc n) a [] cursor split o found le =
      ap
        (λ (page : Page).
          behind_page columns page (read_pages columns descending (ok (suc k)) qs n))
        (page-Finds cursor [] found)
  read_pages-rest (suc n) a (x ∷ b) cursor split o found le =
      let (c, row, e, f) = last_row-split x (take k b) in
      let rest = drop k b in
      let read = read_pages columns descending (ok (suc k)) qs n in
      let whole : x ∷ b ≡ c ++ (row ∷ rest) =
        sym (take-drop (suc k) (x ∷ b))
        ∙ ap (λ (l : List Row). l ++ rest) f
        ∙ append_assoc c (row ∷ []) rest in
      let placed : items ≡ (a ++ c) ++ (row ∷ rest) =
        split ∙ ap (λ (l : List Row). a ++ l) whole ∙ sym (append_assoc a c (row ∷ rest)) in
      let regrouped : items ≡ ((a ++ c) ++ (row ∷ [])) ++ rest =
        placed ∙ sym (append_assoc (a ++ c) (row ∷ []) rest) in
      let found_next : Finds (some (encode_row_cursor columns row)) rest =
        subst (λ (l : List Row). FindsIn l (some (encode_row_cursor columns row)) rest) (sym placed)
          (drop-inmemory_cursor_start columns back descending (a ++ c) row rest
            (subst (IsOrdered descending) placed o)) in
      let again =
        read_pages-rest n ((a ++ c) ++ (row ∷ [])) rest (some (encode_row_cursor columns row))
          regrouped o found_next (omega (arith, length-drop k b)) in
      ap (λ (page : Page). behind_page columns page read) (page-Finds cursor (x ∷ b) found)
      ∙ ap (λ (last : Option Row). behind_row columns (take (suc k) (x ∷ b)) last read) e
      ∙ ap (λ (l : List Row). take (suc k) (x ∷ b) ++ l) again
      ∙ take-drop (suc k) (x ∷ b)

-- Reading in memory, page after page from the cursor of the last row: where the keys are distinct,
-- both columns are read back as printed and a page holds at least one row, as many rounds as there
-- are rows are enough. They give the rows of the list, each as often as there, in the order of the
-- keyset: each row stands behind the cursor of every row before it.
pub read_pages-order :
    {Token : Type 0} (columns : Columns Token) (descending : Bool) (size : ℕ) (qs : List Row)
    (n : ℕ)
    → IsReadBack columns
    → AreDistinct qs
    → 1 ≤ size
    → length qs ≤ n
    → (read : List Row) × (read_pages columns descending (ok size) qs n none ≡ read)
      × IsOrdered descending read
      × ((p : Row → Bool) → count p read ≡ count p qs)
unfolding inmemory_cursor_start
read_pages-order columns descending zero qs n back distinct pos le = absurd (omega arith)
read_pages-order columns descending (suc k) qs n back distinct pos le =
    let o = inmemory_keyset_order-IsOrdered qs descending distinct in
    (
      inmemory_keyset_order qs descending,
      read_pages-rest columns back descending k qs n [] (inmemory_keyset_order qs descending) none
          refl o (0, refl, refl) (omega (arith, length-keyset_order qs descending)),
      o,
      λ p. count-keyset_order p qs descending,
    )
