-- ===== src/Pagination/Plain.antt =====
-- The columns that the database's terms read, where at most one direction is in front of a term.
use django_graphex.Common.{
  Bool, true, false, not, ◌&&◌, ◌≡◌, refl, ◌∙◌, sym, ap, ap₂, inl, inr, ◌⊎◌, Option, none, some,
  List, [], ◌∷◌, ◌++◌, map, ◌==◌, if-holds, Bool-cases, subst, if◌then◌else◌, arith,
}
use mathlib.Core.Option.{some-injective, none-ne-some}
use mathlib.Core.List.{append-nil}
use django_graphex.StrConv.Snake.{to_snake_case}
use django_graphex.Pagination.Terms.{
  Text, Model, is_sign, is_signed, normalize_ordering_term, normalize_all, add_term, bare_of, among,
  text_eq,
}
use django_graphex.Pagination.Heads.{is_signed-to_snake_case}
use django_graphex.Pagination.Inmemory.{is_descending, append_model_pk_ordering, uses_pk}
use django_graphex.Pagination.Queryset.{
  Term, plain, desc_nulls_first, asc_nulls_last, is_directed, place_nulls, automatic_null_ordering,
}

-- The column that the ORM reads in a term: one `-` says descending.
abbrev pub column_of : Text → Text
column_of [] = []
column_of (c ∷ t) = if c == b'-' then t else c ∷ t

pub bare_of-unsigned : (t : Text) → is_signed t ≡ false → bare_of t ≡ t
bare_of-unsigned [] e = refl
bare_of-unsigned (c ∷ t) e = ground (arith, e)

column_of-unsigned : (t : Text) → is_signed t ≡ false → column_of t ≡ t
column_of-unsigned [] e = refl
column_of-unsigned (c ∷ t) e = ground (arith, e)

column_of-bare_of : (t : Text) → is_signed t ≡ false → column_of t ≡ bare_of t
column_of-bare_of t e = column_of-unsigned t e ∙ sym (bare_of-unsigned t e)

descending-bare_of : (t : Text) → is_signed t ≡ false → column_of (b'-' ∷ t) ≡ bare_of (b'-' ∷ t)
descending-bare_of t e = sym (bare_of-unsigned t e)

-- A term is written as the ORM reads it: at most one direction is in front of the name.
abbrev pub IsPlain : Text → Type 0
IsPlain t = column_of t ≡ bare_of t

directed-IsPlain :
    (b : Bool) (t : Text) → is_signed t ≡ false → IsPlain ((if b then b'-' ∷ [] else []) ++ t)
directed-IsPlain true t e = descending-bare_of t e
directed-IsPlain false t e = column_of-bare_of t e

-- A text that an option holds is a plain term.
abbrev HoldsPlain : Text → Option Text → Type 0
HoldsPlain term o = o ≡ some term → IsPlain term

pub normalize_ordering_term-IsPlain :
    (t term : Text) → normalize_ordering_term t ≡ some term → IsPlain term
unfolding normalize_ordering_term
normalize_ordering_term-IsPlain [] term e = ground (arith, e)
normalize_ordering_term-IsPlain (c ∷ bare) term e =
    if-holds (HoldsPlain term) (is_sign c) _ _
      (λ f.
        if-holds (HoldsPlain term) (is_signed bare) _ _ (λ g h. absurd (none-ne-some _ h))
          (λ g h.
            subst IsPlain (some-injective _ _ h) (
              directed-IsPlain (c == b'-') (to_snake_case bare)
                (is_signed-to_snake_case bare ∙ g))))
      (λ f h.
        subst IsPlain (some-injective _ _ h)
          (column_of-bare_of (to_snake_case (c ∷ bare)) (is_signed-to_snake_case (c ∷ bare) ∙ f)))
      e

pub add_term-some :
    (first : Option Text) (rest : Option (List Text)) (t : Text) (terms : List Text)
    → add_term first rest ≡ some (t ∷ terms)
    → (first ≡ some t) × (rest ≡ some terms)
add_term-some (some u) (some us) t terms e = (cc e, cc e)
add_term-some none none t terms e = absurd (none-ne-some _ e)
add_term-some none (some us) t terms e = absurd (none-ne-some _ e)
add_term-some (some u) none t terms e = absurd (none-ne-some _ e)

abbrev pub ArePlain : List Text → Type 0
ArePlain [] = Unit
ArePlain (t ∷ terms) = IsPlain t × ArePlain terms

pub normalize_all-ArePlain : (ts terms : List Text) → normalize_all ts ≡ some terms → ArePlain terms
unfolding normalize_all
normalize_all-ArePlain ts [] e = tt
normalize_all-ArePlain [] (t ∷ terms) e = ground (arith, e)
normalize_all-ArePlain (s ∷ ts) (t ∷ terms) e =
    let parts = add_term-some (normalize_ordering_term s) (normalize_all ts) t terms e in
    (normalize_ordering_term-IsPlain s t parts.0, normalize_all-ArePlain ts terms parts.1)

-- The column of a term of the database's ordering.
abbrev pub term_column : Term → Text
term_column (plain t) = column_of t
term_column (desc_nulls_first name) = name
term_column (asc_nulls_last name) = name

placed-column :
    (placed descending : Bool) (t : Text)
    → IsPlain t
    → term_column (
        if placed
        then if descending then desc_nulls_first (bare_of t) else asc_nulls_last (bare_of t)
        else plain t)
      ≡ column_of t
placed-column true true t p = sym p
placed-column true false t p = sym p
placed-column false descending t p = refl

place_nulls-column :
    (model : Model) (t : Text) → IsPlain t → term_column (place_nulls model t) ≡ column_of t
place_nulls-column model t p =
    placed-column
      (not (text_eq t (b'?' ∷ []))
        && is_directed t (bare_of t)
        && among (bare_of t) model.nullable_attnames)
      (is_descending t) t p

automatic_null_ordering-columns :
    (model : Model) (terms : List Text)
    → ArePlain terms
    → map term_column (automatic_null_ordering model terms) ≡ map column_of terms
unfolding automatic_null_ordering
automatic_null_ordering-columns model [] p = refl
automatic_null_ordering-columns model (t ∷ terms) p =
    ap₂ (λ c cs. c ∷ cs) (place_nulls-column model t p.0)
      (automatic_null_ordering-columns model terms p.1)

ArePlain-append :
    (terms : List Text) (t : Text) → ArePlain terms → IsPlain t → ArePlain (terms ++ (t ∷ []))
ArePlain-append [] t p q = (q, tt)
ArePlain-append (s ∷ terms) t p q = (p.0, ArePlain-append terms t p.1 q)

map-append :
    (f : Text → Text) (terms : List Text) (t : Text)
    → map f (terms ++ (t ∷ [])) ≡ map f terms ++ (f t ∷ [])
map-append f [] t = refl
map-append f (s ∷ terms) t = ap (λ rest. f s ∷ rest) (map-append f terms t)

-- Behind the columns of plain terms stands nothing, or the key.
pub completed-columns :
    (model : Model) (terms : List Text)
    → is_signed model.pk_attname ≡ false
    → ArePlain terms
    → (tail : List Text) × (map term_column
          (automatic_null_ordering model (append_model_pk_ordering model terms))
        ≡ map column_of terms ++ tail)
      × ((tail ≡ []) ⊎ (tail ≡ model.pk_attname ∷ []))
unfolding append_model_pk_ordering
completed-columns model terms e p = elim (Bool-cases (uses_pk model terms)) [
  | inl f ↦
      ([], rw f (automatic_null_ordering-columns model terms p ∙ sym (append-nil _)), inl refl)
  | inr f ↦
      let pk = model.pk_attname in
      (
        column_of pk ∷ [],
        rw f (
            automatic_null_ordering-columns model (terms ++ (pk ∷ []))
              (ArePlain-append terms pk p (column_of-bare_of pk e))
            ∙ map-append column_of terms pk),
        inr (ap (λ c. c ∷ []) (column_of-unsigned pk e)),
      )
]
