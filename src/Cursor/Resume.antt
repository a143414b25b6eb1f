-- ===== src/Cursor/Resume.antt =====
-- Where a page resumes behind the cursor of a row.
use django_graphex.Common.{
  ℕ, Bool, true, false, not, ◌≡◌, ◌≢◌, refl, ◌∙◌, ap, ap₂, subst, inl, inr, Option, none, some,
  List, [], ◌∷◌, ◌++◌, drop, Option-cases, arith,
}
use django_graphex.Cursor.Codec.{IsFaithful, pk_sep, null_marker}
use django_graphex.Cursor.RoundTrip.{has, decode_cursor_parts-encode_cursor}
use django_graphex.Cursor.Keyset.{Row, inmemory_after_cursor}
use django_graphex.Cursor.Order.{after, All, IsOrdered}
use django_graphex.Cursor.Pages.{
  Columns, has_value, coerce_like, first_index, is_some_row, start_after, start_of_parts,
  inmemory_cursor_start, str_option, encode_row_cursor,
}

-- Both columns are read back as printed, and a printed key holds no separator.
pub record IsReadBack {Token : Type 0} (columns : Columns Token) : Type 0 where
  pub faithful : IsFaithful columns.base64
  pub value_back : (v : ℕ) → columns.coerce_value (columns.str_value v) ≡ some v
  pub value_unmarked : (v : ℕ) → columns.str_value v ≢ null_marker
  pub pk_back : (v : ℕ) → columns.coerce_pk (columns.str_pk v) ≡ some v
  pub pk_plain : (v : ℕ) → has pk_sep (columns.str_pk v) ≡ false

drop-first_index :
    (p : Row → Bool) (a b : List Row)
    → All (λ y. not (p y)) a
    → All p b
    → drop (first_index p (a ++ b)) (a ++ b) ≡ b
drop-first_index p [] [] h k = refl
drop-first_index p [] (y ∷ b) h k = rw k.0 refl
drop-first_index p (y ∷ a) b h k =
    let e : p y ≡ false = ground (arith, h.0) in rw e (drop-first_index p a b h.1 k)

module _ (descending : Bool) where
  after_asym : (x y : Row) → after descending x y ≡ true → not (after descending y x) ≡ true
  unfolding inmemory_after_cursor
  after_asym x y e = ground arith

  after_irrefl : (x : Row) → not (after descending x x) ≡ true
  unfolding inmemory_after_cursor
  after_irrefl x = ground arith

  -- In the order, the rows behind a row's cursor are those that follow it.
  around :
      (a : List Row) (row : Row) (b : List Row)
      → IsOrdered descending (a ++ (row ∷ b))
      → All (λ y. not (after descending row y)) (a ++ (row ∷ [])) × All (after descending row) b
  around [] row b o = ((after_irrefl row, tt), o.0)
  around (x ∷ a) row b o =
      let (before, behind) = around a row b o.1 in
      ((after_asym x row (middle x a row b o.0), before), behind)
    where
      middle :
          (x : Row) (a : List Row) (row : Row) (b : List Row)
          → All (after descending x) (a ++ (row ∷ b))
          → after descending x row ≡ true
      middle x [] row b h = h.0
      middle x (y ∷ a) row b h = middle x a row b h.1

pub append_assoc : (a b c : List Row) → (a ++ b) ++ c ≡ a ++ (b ++ c)
append_assoc [] b c = refl
append_assoc (x ∷ a) b c = ap (λ (l : List Row). x ∷ l) (append_assoc a b c)

has_value-middle :
    (a : List Row) (row : Row) (b : List Row) (v : ℕ)
    → row.value ≡ some v
    → has_value (a ++ (row ∷ b)) ≡ true
has_value-middle [] row b v e = ground (arith, e)
has_value-middle (x ∷ a) row b v e = ground (arith, has_value-middle a row b v e)

is_some_row-middle : (a : List Row) (row : Row) (b : List Row) → is_some_row (a ++ (row ∷ b)) ≡ true
is_some_row-middle [] row b = refl
is_some_row-middle (x ∷ a) row b = refl

module _ {Token : Type 0} (columns : Columns Token) (back : IsReadBack columns)
    (descending : Bool) where
  coerce_like-value :
      (a : List Row) (row : Row) (b : List Row)
      → coerce_like
          (has_value (a ++ (row ∷ b)))
          columns.coerce_value
          (str_option columns.str_value row.value)
        ≡ some row.value
  coerce_like-value a row b = elim (Option-cases row.value) [
    | inl e ↦ ground (arith, e)
    | inr (v, e) ↦ ground (arith, e, has_value-middle a row b v e, back.value_back v)
  ]

  coerce_like-pk :
      (a : List Row) (row : Row) (b : List Row)
      → coerce_like (is_some_row (a ++ (row ∷ b))) columns.coerce_pk (some (columns.str_pk row.pk))
        ≡ some (some row.pk)
  coerce_like-pk a row b = ground (arith, is_some_row-middle a row b, back.pk_back row.pk)

  str_option-unmarked : (value : Option ℕ) → str_option columns.str_value value ≢ some null_marker
  str_option-unmarked none e = absurd (cc e)
  str_option-unmarked (some v) e = back.value_unmarked v (ground (arith, e))

  -- A page behind the cursor of a row of the ordered list resumes at the row that follows it.
  pub drop-inmemory_cursor_start :
      (a : List Row) (row : Row) (b : List Row)
      → IsOrdered descending (a ++ (row ∷ b))
      → (start : ℕ) × (inmemory_cursor_start columns
            (a ++ (row ∷ b))
            descending
            (some (encode_row_cursor columns row))
          ≡ some start)
        × (drop start (a ++ (row ∷ b)) ≡ b)
  unfolding inmemory_cursor_start encode_row_cursor
  drop-inmemory_cursor_start a row b o =
      let items = a ++ (row ∷ b) in
      let decoded =
        decode_cursor_parts-encode_cursor columns.base64 (str_option columns.str_value row.value)
          (some (columns.str_pk row.pk)) back.faithful (str_option-unmarked row.value)
          (back.pk_plain row.pk) in
      let (before, behind) = around descending a row b o in
      let split = append_assoc a (row ∷ []) b in
      let p : Row → Bool = after descending row in
      (
        first_index p items,
        ap (start_of_parts columns items descending) decoded
            ∙ ap₂ (start_after items descending) (coerce_like-value a row b)
                (coerce_like-pk a row b),
        subst (λ (l : List Row). drop (first_index p l) l ≡ b) split
            (drop-first_index p (a ++ (row ∷ [])) b before behind),
      )
