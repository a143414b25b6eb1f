-- ===== src/StrConv/Words.antt =====
-- `to_snake_case` read letter by letter: where a word starts depends on the letter before a capital
-- and the letter behind it.
use django_graphex.Common.{
  ℕ, ◌≡◌, refl, sym, ◌∙◌, ap, inl, inr, Bool, true, false, ◌&&◌, ◌||◌, Option, none, some, List, [],
  ◌∷◌, ◌++◌, map, Bool-cases, subst, if◌then◌else◌, arith,
}
use mathlib.Core.List.{append-nil, append_assoc}
use django_graphex.StrConv.Snake.{
  is_upper, is_lower, is_digit, break_run, sub_acronyms, sub_words, lower, to_snake_case, is_ascii,
}

-- Whether the letter behind is a lower-case one.
abbrev pub lower_next : List ℕ → Bool
lower_next [] = false
lower_next (c ∷ s) = is_lower c

abbrev pub is_word_before : Option ℕ → Bool
is_word_before none = false
is_word_before (some c) = is_lower c || is_digit c

abbrev pub is_upper_before : Option ℕ → Bool
is_upper_before none = false
is_upper_before (some c) = is_upper c

-- A capital starts a word behind a lower-case letter or a digit, and behind a capital if a
-- lower-case letter follows it.
abbrev pub starts_word : Option ℕ → ℕ → List ℕ → Bool
starts_word before c s =
    is_upper c && (is_word_before before || (is_upper_before before && lower_next s))

-- A name with `_` in front of each word but the first.
abbrev pub words : Option ℕ → List ℕ → List ℕ
words before [] = []
words before (c ∷ s) =
    let rest = words (some c) s in if starts_word before c s then b'_' ∷ c ∷ rest else c ∷ rest

-- What the first substitution does.
abbrev acronyms : Bool → List ℕ → List ℕ
acronyms after [] = []
acronyms after (c ∷ s) =
    let rest = acronyms (is_upper c) s in
    if after && (is_upper c && lower_next s) then b'_' ∷ c ∷ rest else c ∷ rest

abbrev break_last : List ℕ → List ℕ
break_last [] = []
break_last (a ∷ []) = b'_' ∷ a ∷ []
break_last (a ∷ b ∷ run) = a ∷ break_last (b ∷ run)

break_run-break_last : (a : ℕ) (run : List ℕ) → break_run (a ∷ run) ≡ a ∷ break_last run
unfolding break_run
break_run-break_last a [] = refl
break_run-break_last a (b ∷ []) = refl
break_run-break_last a (b ∷ c ∷ run) = ap (λ r. a ∷ r) (break_run-break_last b (c ∷ run))

abbrev all_upper : List ℕ → Bool
all_upper [] = true
all_upper (c ∷ s) = is_upper c && all_upper s

all_upper-append :
    (run : List ℕ) (c : ℕ)
    → all_upper run ≡ true
    → is_upper c ≡ true
    → all_upper (run ++ (c ∷ [])) ≡ true
all_upper-append [] c h e = ground (arith, e)
all_upper-append (a ∷ run) c h e = ground (arith, h, e, all_upper-append run c)

upper-lower : (c : ℕ) → is_upper c ≡ true → is_lower c ≡ false
upper-lower c e = ground (arith, e)

acronyms-end : (after : Bool) (run : List ℕ) → all_upper run ≡ true → acronyms after run ≡ run
acronyms-end after [] h = refl
acronyms-end after (a ∷ []) h = ground (arith, h)
acronyms-end after (a ∷ b ∷ run) h = ground (arith, h, upper-lower b, acronyms-end true (b ∷ run))

-- A run of capitals in front of a letter that is none.
acronyms-run :
    (run : List ℕ) (c : ℕ) (s : List ℕ)
    → all_upper run ≡ true
    → is_upper c ≡ false
    → acronyms true (run ++ (c ∷ s))
      ≡ (if is_lower c then break_last run else run) ++ (c ∷ acronyms false s)
acronyms-run [] c s h e = ground (arith, e)
acronyms-run (a ∷ []) c s h e = ground (arith, h, e)
acronyms-run (a ∷ b ∷ run) c s h e = ground (arith, h, e, upper-lower b, acronyms-run (b ∷ run) c s)

acronyms-break_run :
    (run : List ℕ) (c : ℕ) (s : List ℕ)
    → all_upper run ≡ true
    → is_upper c ≡ false
    → acronyms false (run ++ (c ∷ s))
      ≡ (if is_lower c then break_run run else run) ++ (c ∷ acronyms false s)
unfolding break_run
acronyms-break_run [] c s h e = ground (arith, e)
acronyms-break_run (a ∷ run) c s h e =
    ground (arith, h, e, break_run-break_last a run, acronyms-run run c s)

sub_acronyms-run :
    (run s : List ℕ) → all_upper run ≡ true → sub_acronyms run s ≡ acronyms false (run ++ s)
unfolding sub_acronyms
sub_acronyms-run run [] h =
    subst (λ r. run ≡ acronyms false r) (sym (append-nil run)) (sym (acronyms-end false run h))
sub_acronyms-run run (c ∷ s) h = elim (Bool-cases (is_upper c)) [
  | inl e ↦ rw e (
      sub_acronyms-run (run ++ (c ∷ [])) s (all_upper-append run c h e)
      ∙ ap (acronyms false) (append_assoc run (c ∷ []) s))
  | inr e ↦ rw e (
      ap (λ rest. (if is_lower c then break_run run else run) ++ (c ∷ rest))
        (sub_acronyms-run [] s refl)
      ∙ sym (acronyms-break_run run c s h e))
]

sub_words-acronyms :
    (before : Option ℕ) (s : List ℕ)
    → sub_words (is_word_before before) (acronyms (is_upper_before before) s) ≡ words before s
unfolding sub_words
sub_words-acronyms before [] = refl
sub_words-acronyms before (c ∷ s) = elim (Bool-cases (is_upper c)) [
  | inl e ↦ ground (arith, e, upper-lower c, sub_words-acronyms (some c) s)
  | inr e ↦ ground (arith, e, sub_words-acronyms (some c) s)
]

-- Converting an ASCII name is putting `_` in front of each capital that starts a word and then
-- taking the small letters: a capital starts a word behind a lower-case letter or a digit, and
-- behind a capital if a lower-case letter follows it.
pub to_snake_case-words :
    (value : List ℕ) → is_ascii value ≡ true → to_snake_case value ≡ map lower (words none value)
unfolding to_snake_case
to_snake_case-words value ascii =
    ap (λ s. map lower (sub_words false s)) (sub_acronyms-run [] value refl)
    ∙ ap (map lower) (sub_words-acronyms none value)
