-- ===== src/Pagination/Lexicographic.antt =====
-- Sorting by one term after the other, the last one first, gives the lexicographic order.
use django_graphex.Common.{
  ℕ, count, ◌+◌, Bool, true, false, not, ◌&&◌, ◌||◌, ◌≡◌, refl, ◌∙◌, ap, sym, inl, inr, Option,
  List, [], ◌∷◌, Bool-cases, subst, if◌then◌else◌, arith,
}
use django_graphex.Pagination.Terms.{Text, Model}
use django_graphex.Pagination.Inmemory.{
  is_before, insert_item, sort_items, sort_by_terms, total_terms, append_model_pk_ordering,
}

abbrev pub All : {A : Type 0} → (A → Bool) → List A → Type 0
All p [] = Unit
All p (x ∷ items) = (p x ≡ true) × All p items

module _ {A : Type 0} (attribute : Text → A → Option ℕ) where
  -- Whether `x` may stand before `y`: the first term that tells them apart decides.
  abbrev pub may_precede : List Text → A → A → Bool
  may_precede [] x y = true
  may_precede (t ∷ terms) x y =
      is_before attribute t x y || (not (is_before attribute t y x) && may_precede terms x y)

  -- Each row may stand before every row behind it.
  abbrev pub IsSorted : List Text → List A → Type 0
  IsSorted terms [] = Unit
  IsSorted terms (x ∷ items) = All (may_precede terms x) items × IsSorted terms items

  All-both :
      (p q r : A → Bool) (items : List A)
      → ((y : A) → p y ≡ true → q y ≡ true → r y ≡ true)
      → All p items
      → All q items
      → All r items
  All-both p q r [] h a b = tt
  All-both p q r (x ∷ items) h a b = (h x a.0 b.0, All-both p q r items h a.1 b.1)

  All-insert_item :
      (p : A → Bool) (t : Text) (x : A) (items : List A)
      → p x ≡ true
      → All p items
      → All p (insert_item attribute t x items)
  All-insert_item p t x [] h a = (h, tt)
  All-insert_item p t x (y ∷ items) h a = elim (Bool-cases (is_before attribute t y x)) [
    | inl e ↦ rw e (a.0, All-insert_item p t x items h a.1)
    | inr e ↦ rw e (h, a)
  ]

  All-sort_items :
      (p : A → Bool) (t : Text) (items : List A)
      → All p items
      → All p (sort_items attribute t items)
  All-sort_items p t [] a = tt
  All-sort_items p t (x ∷ items) a =
      All-insert_item p t x (sort_items attribute t items) a.0 (All-sort_items p t items a.1)

  module _ (t : Text) (terms : List Text) where
    before-may_precede :
        (x y : A) → is_before attribute t x y ≡ true → may_precede (t ∷ terms) x y ≡ true
    before-may_precede x y e = ground (arith, e)

    tie-may_precede :
        (x y : A)
        → is_before attribute t y x ≡ false
        → may_precede terms x y ≡ true
        → may_precede (t ∷ terms) x y ≡ true
    tie-may_precede x y e f = ground (arith, e, f)

    -- A row that is not behind `y` may stand before what stands behind `y`.
    may_precede-chain :
        (x y z : A)
        → is_before attribute t y x ≡ false
        → may_precede (t ∷ terms) y z ≡ true
        → may_precede terms x z ≡ true
        → may_precede (t ∷ terms) x z ≡ true
    may_precede-chain x y z e f g = ground (arith, e, f, g)

    IsSorted-insert_item :
        (x : A) (items : List A)
        → All (may_precede terms x) items
        → IsSorted (t ∷ terms) items
        → IsSorted (t ∷ terms) (insert_item attribute t x items)
    IsSorted-insert_item x [] d o = (tt, tt)
    IsSorted-insert_item x (y ∷ items) d o = elim (Bool-cases (is_before attribute t y x)) [
      | inl e ↦ rw e (
        All-insert_item (may_precede (t ∷ terms) y) t x items (before-may_precede y x e) o.0,
        IsSorted-insert_item x items d.1 o.1,
      )
      | inr e ↦ rw e (
        (
          tie-may_precede x y e d.0,
          All-both (may_precede (t ∷ terms) y) (may_precede terms x) (may_precede (t ∷ terms) x)
              items (λ z. may_precede-chain x y z e) o.0 d.1,
        ),
        o,
      )
    ]

    IsSorted-sort_items :
        (items : List A)
        → IsSorted terms items
        → IsSorted (t ∷ terms) (sort_items attribute t items)
    IsSorted-sort_items [] o = tt
    IsSorted-sort_items (x ∷ items) o =
        IsSorted-insert_item x (sort_items attribute t items)
          (All-sort_items (may_precede terms x) t items o.0) (IsSorted-sort_items items o.1)

  All-true : (items : List A) → All (λ x. true) items
  All-true [] = tt
  All-true (x ∷ items) = (refl, All-true items)

  IsSorted-none : (items : List A) → IsSorted [] items
  IsSorted-none [] = tt
  IsSorted-none (x ∷ items) = (All-true items, IsSorted-none items)

  IsSorted-sort_by_terms :
      (terms : List Text) (items : List A) → IsSorted terms (sort_by_terms attribute terms items)
  IsSorted-sort_by_terms [] items = IsSorted-none items
  IsSorted-sort_by_terms (t ∷ terms) items =
      IsSorted-sort_items t terms (sort_by_terms attribute terms items)
        (IsSorted-sort_by_terms terms items)

  count-insert_item :
      (p : A → Bool) (t : Text) (x : A) (items : List A)
      → count p (insert_item attribute t x items) ≡ (if p x then 1 else 0) + count p items
  count-insert_item p t x [] = refl
  count-insert_item p t x (y ∷ items) = elim (Bool-cases (is_before attribute t y x)) [
    | inl e ↦ rw e (let same = count-insert_item p t x items in omega (arith, same))
    | inr e ↦ rw e refl
  ]

  count-sort_items :
      (p : A → Bool) (t : Text) (items : List A)
      → count p (sort_items attribute t items) ≡ count p items
  count-sort_items p t [] = refl
  count-sort_items p t (x ∷ items) =
      count-insert_item p t x (sort_items attribute t items)
      ∙ ap (λ n. (if p x then 1 else 0) + n) (count-sort_items p t items)

  pub count-sort_by_terms :
      (p : A → Bool) (terms : List Text) (items : List A)
      → count p (sort_by_terms attribute terms items) ≡ count p items
  count-sort_by_terms p [] items = refl
  count-sort_by_terms p (t ∷ terms) items =
      count-sort_items p t (sort_by_terms attribute terms items) ∙ count-sort_by_terms p terms items

  sort_by_terms-empty : (terms : List Text) → sort_by_terms attribute terms [] ≡ []
  sort_by_terms-empty [] = refl
  sort_by_terms-empty (t ∷ terms) = ap (sort_items attribute t) (sort_by_terms-empty terms)

  pub IsSorted-total_terms :
      (model : Model) (terms : List Text) (items : List A)
      → IsSorted
          (append_model_pk_ordering model terms)
          (sort_by_terms attribute (total_terms attribute model terms items) items)
  IsSorted-total_terms model terms [] =
      subst (IsSorted (append_model_pk_ordering model terms)) (sym (sort_by_terms-empty terms)) tt
  IsSorted-total_terms model terms (x ∷ items) =
      IsSorted-sort_by_terms (append_model_pk_ordering model terms) (x ∷ items)
