-- ===== src/Pagination/Heads.antt =====
-- A name keeps its first letter, up to its case, when it is converted to snake_case.
use django_graphex.Common.{
  ℕ, false, ◌≡◌, refl, ◌∙◌, inl, inr, [], ◌∷◌, ◌++◌, map, Bool-cases, arith,
}
use django_graphex.StrConv.Snake.{
  is_upper, is_lower, break_run, sub_acronyms, sub_words, lower, to_snake_case,
}
use django_graphex.Pagination.Terms.{Text, is_sign, is_signed}

is_signed-append : (a : ℕ) (r s : Text) → is_signed ((a ∷ r) ++ s) ≡ is_sign a
is_signed-append a r s = refl

is_signed-break_run : (a : ℕ) (r s : Text) → is_signed (break_run (a ∷ r) ++ s) ≡ is_sign a
unfolding break_run
is_signed-break_run a [] s = refl
is_signed-break_run a (b ∷ []) s = refl
is_signed-break_run a (b ∷ c ∷ r) s = refl

is_signed-run : (a : ℕ) (r s : Text) → is_signed (sub_acronyms (a ∷ r) s) ≡ is_sign a
unfolding sub_acronyms
is_signed-run a r [] = refl
is_signed-run a r (c ∷ s) = elim (Bool-cases (is_upper c)) [
  | inl e ↦ ground (arith, e, is_signed-run a (r ++ (c ∷ [])) s)
  | inr e ↦ (elim (Bool-cases (is_lower c)) [
    | inl f ↦ ground (arith, e, f, is_signed-break_run a r (c ∷ sub_acronyms [] s))
    | inr f ↦ ground (arith, e, f)
  ])
]

is_signed-sub_acronyms : (s : Text) → is_signed (sub_acronyms [] s) ≡ is_signed s
unfolding sub_acronyms break_run
is_signed-sub_acronyms [] = refl
is_signed-sub_acronyms (c ∷ s) = elim (Bool-cases (is_upper c)) [
  | inl e ↦ ground (arith, e, is_signed-run c [] s)
  | inr e ↦ (elim (Bool-cases (is_lower c)) [
    | inl f ↦ ground (arith, e, f)
    | inr f ↦ ground (arith, e, f)
  ])
]

is_signed-sub_words : (s : Text) → is_signed (sub_words false s) ≡ is_signed s
unfolding sub_words
is_signed-sub_words [] = refl
is_signed-sub_words (c ∷ s) = refl

is_sign-lower : (c : ℕ) → is_sign (lower c) ≡ is_sign c
unfolding lower
is_sign-lower c = ground arith

is_signed-lower : (s : Text) → is_signed (map lower s) ≡ is_signed s
is_signed-lower [] = refl
is_signed-lower (c ∷ s) = is_sign-lower c

pub is_signed-to_snake_case : (s : Text) → is_signed (to_snake_case s) ≡ is_signed s
unfolding to_snake_case
is_signed-to_snake_case s =
    is_signed-lower (sub_words false (sub_acronyms [] s))
    ∙ is_signed-sub_words (sub_acronyms [] s)
    ∙ is_signed-sub_acronyms s
