-- ===== src/Pagination/Determined.antt =====
-- The order that `_inmemory_order` gives does not depend on the order in which the rows came.
use django_graphex.Common.{
  ℕ, count, ◌≤◌, Bool, true, false, ◌≡◌, refl, ◌∙◌, ap, ap₂, sym, inl, inr, Option, none, some,
  List, [], ◌∷◌, ◌++◌, ◌==◌, Bool-cases, Option-cases, subst, if◌then◌else◌, arith,
}
use django_graphex.Cursor.Keyset.{sort_key, is_beyond}
use django_graphex.Pagination.Terms.{
  Text, Ordering, Model, split_ordering, is_falsy, is_signed, bare_of, among, text_eq, pk_names,
}
use django_graphex.Pagination.Plain.{bare_of-unsigned}
use django_graphex.Pagination.Inmemory.{
  is_descending, is_before, sort_by_terms, total_terms, append_model_pk_ordering, uses_pk, allows,
  inmemory_order,
}
use django_graphex.Pagination.Lexicographic.{
  All, may_precede, IsSorted, IsSorted-total_terms, count-sort_by_terms,
}

text_eq_refl : (t : Text) → text_eq t t ≡ true
text_eq_refl [] = refl
text_eq_refl (c ∷ t) = ground (arith, text_eq_refl t)

uses_pk-append :
    (model : Model) (terms : List Text) (t : Text)
    → among (bare_of t) (pk_names model) ≡ true
    → uses_pk model (terms ++ (t ∷ [])) ≡ true
uses_pk-append model [] t e = ground (arith, e)
uses_pk-append model (s ∷ terms) t e = ground (arith, uses_pk-append model terms t e)

pk_attname-among :
    (model : Model)
    → is_signed model.pk_attname ≡ false
    → among (bare_of model.pk_attname) (pk_names model) ≡ true
pk_attname-among model e =
    rw (bare_of-unsigned model.pk_attname e) (ground (arith, text_eq_refl model.pk_attname))

-- The completed terms use the key.
append_model_pk_ordering-uses_pk :
    (model : Model) (terms : List Text)
    → is_signed model.pk_attname ≡ false
    → uses_pk model (append_model_pk_ordering model terms) ≡ true
unfolding append_model_pk_ordering
append_model_pk_ordering-uses_pk model terms e = elim (Bool-cases (uses_pk model terms)) [
  | inl f ↦ rw f f
  | inr f ↦ rw f (uses_pk-append model terms model.pk_attname (pk_attname-among model e))
]

ranks-apart :
    (descending : Bool) (m n : ℕ)
    → m == n ≡ false
    → is_beyond descending (sort_key (some n)) (sort_key (some m)) ≡ false
    → is_beyond descending (sort_key (some m)) (sort_key (some n)) ≡ true
ranks-apart descending m n d e = ground arith

ranks_asym :
    (descending : Bool) (a b : Option ℕ)
    → is_beyond descending (sort_key a) (sort_key b) ≡ true
    → is_beyond descending (sort_key b) (sort_key a) ≡ false
ranks_asym descending none none e = ground arith
ranks_asym descending none (some n) e = ground arith
ranks_asym descending (some m) none e = ground arith
ranks_asym descending (some m) (some n) e = ground arith

module _ {A : Type 0} (attribute : Text → A → Option ℕ) (model : Model) (key : A → ℕ)
    (determines : (x y : A) → key x ≡ key y → x ≡ y)
    (reads : (name : Text) (x : A)
      → among name (pk_names model) ≡ true
      → attribute name x ≡ some (key x)) where
  -- A term that reads the key tells rows of different keys apart.
  key-apart :
      (t : Text) (x y : A)
      → among (bare_of t) (pk_names model) ≡ true
      → key x == key y ≡ false
      → is_before attribute t x y ≡ false
      → is_before attribute t y x ≡ true
  key-apart t x y e f =
      rw (reads (bare_of t) x e, reads (bare_of t) y e)
        (ranks-apart (is_descending t) (key x) (key y) f)

  -- Of two rows with different keys, one may not stand before the other.
  may_precede_asym :
      (terms : List Text) (x y : A)
      → uses_pk model terms ≡ true
      → key x == key y ≡ false
      → may_precede attribute terms x y ≡ true
      → may_precede attribute terms y x ≡ false
  may_precede_asym [] x y u d e = ground (arith, u)
  may_precede_asym (t ∷ terms) x y u d e = elim (Bool-cases (is_before attribute t x y)) [
    | inl f ↦ ground (
      arith,
      f,
      ranks_asym (is_descending t) (attribute (bare_of t) y) (attribute (bare_of t) x) f,
    )
    | inr f ↦ (elim (Bool-cases (among (bare_of t) (pk_names model))) [
      | inl g ↦ ground (arith, e, f, key-apart t x y g d f)
      | inr g ↦
          ground (
            arith,
            e,
            f,
            may_precede_asym terms x y (ground (arith, u, g)) d (ground (arith, e, f)),
          )
    ])
  ]

  -- A test that holds of a row is met in a list that has a row with the row's key.
  All-has_key :
      (p : A → Bool) (x : A) (items : List A)
      → 1 ≤ count (λ y. key x == key y) items
      → All p items
      → p x ≡ true
  All-has_key p x [] h a = ground (arith, h)
  All-has_key p x (y ∷ items) h a = elim (Bool-cases (key x == key y)) [
    | inl e ↦ subst (λ z. p z ≡ true) (determines y x (sym (ground (arith, e)))) a.0
    | inr e ↦ All-has_key p x items (ground (arith, h, e)) a.1
  ]

  count-behind :
      (p : A → Bool) (x y : A) (items others : List A)
      → x ≡ y
      → count p (x ∷ items) ≡ count p (y ∷ others)
      → count p items ≡ count p others
  count-behind p x y items others first same =
      omega (arith, same, ap {B = ℕ} (λ z. if p z then 1 else 0) first)

  -- The first row of a list stands somewhere in a list of the same rows, behind its first row.
  All-first :
      (p : A → Bool) (x y : A) (items others : List A)
      → ((q : A → Bool) → count q (x ∷ items) ≡ count q (y ∷ others))
      → key x == key y ≡ false
      → All p others
      → p x ≡ true
  All-first p x y items others same d a =
      All-has_key p x others (ground (arith, d, same (λ z. key x == key z))) a

  -- Two lists of the same rows in the order of terms that use the key are one list.
  IsSorted-unique :
      (terms : List Text) (items others : List A)
      → uses_pk model terms ≡ true
      → IsSorted attribute terms items
      → IsSorted attribute terms others
      → ((p : A → Bool) → count p items ≡ count p others)
      → items ≡ others
  IsSorted-unique terms [] [] u o r same = refl
  IsSorted-unique terms [] (y ∷ others) u o r same = absurd (omega (arith, same (λ z. true)))
  IsSorted-unique terms (x ∷ items) [] u o r same = absurd (omega (arith, same (λ z. true)))
  IsSorted-unique terms (x ∷ items) (y ∷ others) u o r same = elim (Bool-cases (key x == key y)) [
    | inl e ↦
        let first = determines x y (ground (arith, e)) in
        ap₂ (λ z zs. z ∷ zs) first
          (IsSorted-unique terms items others u o.1 r.1
            (λ p. count-behind p x y items others first (same p)))
    | inr e ↦ absurd (
        cc (
          may_precede_asym terms x y u e (
              All-first (may_precede attribute terms x) y x others items (λ q. sym (same q))
                (ground (arith, e)) o.0),
          All-first (may_precede attribute terms y) x y items others same e r.0,
        ))
  ]

  -- Where a row is determined by its key, the names of the key read it, the key's column has no
  -- sign in front and an ordering is given: ordering the same rows, which came in another order,
  -- gives the same result, errors included.
  pub inmemory_order-determined :
      (items others : List A) (ordering : Ordering) (allowed : Option (List Text))
      → is_signed model.pk_attname ≡ false
      → is_falsy ordering ≡ false
      → ((p : A → Bool) → count p items ≡ count p others)
      → inmemory_order attribute model items ordering allowed
        ≡ inmemory_order attribute model others ordering allowed
  unfolding inmemory_order
  inmemory_order-determined items others ordering allowed plain truthy same =
      elim (Option-cases (split_ordering ordering)) [
        | inl e ↦ rw (truthy, e) refl
        | inr (terms, e) ↦ (elim (Bool-cases (allows allowed terms)) [
          | inl f ↦
              rw (truthy, e, f)
                (ap some (
                  IsSorted-unique (append_model_pk_ordering model terms)
                    (sort_by_terms attribute (total_terms attribute model terms items) items)
                    (sort_by_terms attribute (total_terms attribute model terms others) others)
                    (append_model_pk_ordering-uses_pk model terms plain)
                    (IsSorted-total_terms attribute model terms items)
                    (IsSorted-total_terms attribute model terms others)
                    (λ p.
                      count-sort_by_terms attribute p (total_terms attribute model terms items)
                        items
                      ∙ same p
                      ∙ sym (
                          count-sort_by_terms attribute p (total_terms attribute model terms others)
                            others))))
          | inr f ↦ rw (truthy, e, f) refl
        ])
      ]
