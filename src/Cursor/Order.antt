-- ===== src/Cursor/Order.antt =====
-- `_inmemory_keyset_order`: two stable sorts give the order of the keyset.
use django_graphex.Common.{
  Bool, true, false, not, ◌≡◌, inl, inr, some, List, [], ◌∷◌, ◌==◌, Bool-cases, if◌then◌else◌,
  arith,
}
use django_graphex.Cursor.Keyset.{Row, sort_key, is_beyond, inmemory_after_cursor}

-- Python's stable `sort`, by insertion: `x`, which stands before `ys`, goes behind those that the
-- order puts before it.
abbrev pub insert_row : (Row → Row → Bool) → Row → List Row → List Row
insert_row before x [] = x ∷ []
insert_row before x (y ∷ ys) =
    let rest = insert_row before x ys in if before y x then y ∷ rest else x ∷ y ∷ ys

abbrev pub sort_rows : (Row → Row → Bool) → List Row → List Row
sort_rows before [] = []
sort_rows before (x ∷ xs) = insert_row before x (sort_rows before xs)

-- `reverse=True` keeps the order of equals.
abbrev pub by_pk : Bool → Row → Row → Bool
by_pk descending a b = is_beyond descending (sort_key (some b.pk)) (sort_key (some a.pk))

abbrev pub by_value : Bool → Row → Row → Bool
by_value descending a b = is_beyond descending (sort_key b.value) (sort_key a.value)

unfoldable pub inmemory_keyset_order : List Row → Bool → List Row
inmemory_keyset_order items descending =
    sort_rows (by_value descending) (sort_rows (by_pk descending) items)

-- `y` stands behind the cursor of `x`.
abbrev pub after : Bool → Row → Row → Bool
unfolding inmemory_after_cursor
after descending x y = inmemory_after_cursor y descending x.value (some x.pk)

abbrev pub All : (Row → Bool) → List Row → Type 0
All p [] = Unit
All p (x ∷ xs) = (p x ≡ true) × All p xs

-- Each row stands behind the cursor of every row before it.
abbrev pub IsOrdered : Bool → List Row → Type 0
IsOrdered descending [] = Unit
IsOrdered descending (x ∷ xs) = All (after descending x) xs × IsOrdered descending xs

-- No two rows have one key.
abbrev pub differs : Row → Row → Bool
differs x y = not (x.pk == y.pk)

abbrev pub AreDistinct : List Row → Type 0
AreDistinct [] = Unit
AreDistinct (x ∷ xs) = All (differs x) xs × AreDistinct xs

All-imp :
    (p q : Row → Bool) (xs : List Row) → ((y : Row) → p y ≡ true → q y ≡ true) → All p xs → All q xs
All-imp p q [] h a = tt
All-imp p q (x ∷ xs) h a = (h x a.0, All-imp p q xs h a.1)

All-both :
    (p q r : Row → Bool) (xs : List Row)
    → ((y : Row) → p y ≡ true → q y ≡ true → r y ≡ true)
    → All p xs
    → All q xs
    → All r xs
All-both p q r [] h a b = tt
All-both p q r (x ∷ xs) h a b = (h x a.0 b.0, All-both p q r xs h a.1 b.1)

All-insert_row :
    (p : Row → Bool) (before : Row → Row → Bool) (x : Row) (ys : List Row)
    → p x ≡ true
    → All p ys
    → All p (insert_row before x ys)
All-insert_row p before x [] h a = (h, tt)
All-insert_row p before x (y ∷ ys) h a = elim (Bool-cases (before y x)) [
  | inl e ↦ rw e (a.0, All-insert_row p before x ys h a.1)
  | inr e ↦ rw e (h, a)
]

All-sort_rows :
    (p : Row → Bool) (before : Row → Row → Bool) (xs : List Row)
    → All p xs
    → All p (sort_rows before xs)
All-sort_rows p before [] a = tt
All-sort_rows p before (x ∷ xs) a =
    All-insert_row p before x (sort_rows before xs) a.0 (All-sort_rows p before xs a.1)

-- Each row's key is before the key of every row behind it.
abbrev IsByPk : Bool → List Row → Type 0
IsByPk descending [] = Unit
IsByPk descending (x ∷ xs) = All (by_pk descending x) xs × IsByPk descending xs

module _ (descending : Bool) where
  by_pk_trans :
      (x y z : Row)
      → by_pk descending x y ≡ true
      → by_pk descending y z ≡ true
      → by_pk descending x z ≡ true
  by_pk_trans x y z e f = ground arith

  by_pk-flip :
      (x y : Row) → differs x y ≡ true → by_pk descending y x ≡ false → by_pk descending x y ≡ true
  by_pk-flip x y d e = ground arith

  IsByPk-insert_row :
      (x : Row) (ys : List Row)
      → All (differs x) ys
      → IsByPk descending ys
      → IsByPk descending (insert_row (by_pk descending) x ys)
  IsByPk-insert_row x [] d o = (tt, tt)
  IsByPk-insert_row x (y ∷ ys) d o = elim (Bool-cases (by_pk descending y x)) [
    | inl e ↦ rw e (
      All-insert_row (by_pk descending y) (by_pk descending) x ys e o.0,
      IsByPk-insert_row x ys d.1 o.1,
    )
    | inr e ↦
        let f = by_pk-flip x y d.0 e in
        rw e (
          (f, All-imp (by_pk descending y) (by_pk descending x) ys (λ z. by_pk_trans x y z f) o.0),
          o,
        )
  ]

  IsByPk-sort_rows :
      (xs : List Row) → AreDistinct xs → IsByPk descending (sort_rows (by_pk descending) xs)
  IsByPk-sort_rows [] d = tt
  IsByPk-sort_rows (x ∷ xs) d =
      IsByPk-insert_row x (sort_rows (by_pk descending) xs)
        (All-sort_rows (differs x) (by_pk descending) xs d.0) (IsByPk-sort_rows xs d.1)

  after_trans :
      (x y z : Row)
      → after descending x y ≡ true
      → after descending y z ≡ true
      → after descending x z ≡ true
  unfolding inmemory_after_cursor
  after_trans x y z e f = ground arith

  after-value : (x y : Row) → by_value descending x y ≡ true → after descending x y ≡ true
  unfolding inmemory_after_cursor
  after-value x y e = ground arith

  -- Of two rows in the order of their keys, the first is not behind the second's value only if it
  -- is before it altogether.
  after-flip :
      (x y : Row)
      → by_pk descending x y ≡ true
      → by_value descending y x ≡ false
      → after descending x y ≡ true
  unfolding inmemory_after_cursor
  after-flip x y e f = ground arith

  IsOrdered-insert_row :
      (x : Row) (ys : List Row)
      → All (by_pk descending x) ys
      → IsOrdered descending ys
      → IsOrdered descending (insert_row (by_value descending) x ys)
  IsOrdered-insert_row x [] d o = (tt, tt)
  IsOrdered-insert_row x (y ∷ ys) d o = elim (Bool-cases (by_value descending y x)) [
    | inl e ↦ rw e (
      All-insert_row (after descending y) (by_value descending) x ys (after-value y x e) o.0,
      IsOrdered-insert_row x ys d.1 o.1,
    )
    | inr e ↦
        let f = after-flip x y d.0 e in
        rw e (
          (f, All-imp (after descending y) (after descending x) ys (λ z. after_trans x y z f) o.0),
          o,
        )
  ]

  IsOrdered-sort_rows :
      (xs : List Row)
      → IsByPk descending xs
      → IsOrdered descending (sort_rows (by_value descending) xs)
  IsOrdered-sort_rows [] d = tt
  IsOrdered-sort_rows (x ∷ xs) d =
      IsOrdered-insert_row x (sort_rows (by_value descending) xs)
        (All-sort_rows (by_pk descending x) (by_value descending) xs d.0)
        (IsOrdered-sort_rows xs d.1)

-- Rows with distinct keys come out of the two stable sorts in the order of the keyset: each row
-- stands behind the cursor of every row before it.
pub inmemory_keyset_order-IsOrdered :
    (items : List Row) (descending : Bool)
    → AreDistinct items
    → IsOrdered descending (inmemory_keyset_order items descending)
unfolding inmemory_keyset_order
inmemory_keyset_order-IsOrdered items descending d =
    IsOrdered-sort_rows descending (sort_rows (by_pk descending) items)
      (IsByPk-sort_rows descending items d)
