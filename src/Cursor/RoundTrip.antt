-- ===== src/Cursor/RoundTrip.antt =====
-- A cursor gives back what it was made of.
use django_graphex.Common.{
  ℕ, Bool, true, false, ◌||◌, ◌≡◌, ◌≢◌, refl, ◌∙◌, ap, inl, inr, Option, none, some, [], ◌∷◌, ◌++◌,
  ◌==◌, ==_iff, Bool-cases, arith,
}
use django_graphex.Cursor.Codec.{
  Text, Base64, IsFaithful, pk_sep, null_marker, prefix, text_eq, rpartition, value_part, pk_part,
  encode_cursor, decoded_value, parts_of, from_raw, decode_cursor_parts,
}

abbrev pub has : ℕ → Text → Bool
has sep [] = false
has sep (c ∷ s) = (c == sep) || has sep s

rpartition-none : (sep : ℕ) (s : Text) → has sep s ≡ false → rpartition sep s ≡ none
unfolding rpartition
rpartition-none sep [] h = refl
rpartition-none sep (c ∷ s) h = ground (arith, h, rpartition-none sep s)

rpartition-last :
    (sep : ℕ) (s t : Text) → has sep t ≡ false → rpartition sep (s ++ (sep ∷ t)) ≡ some (s, t)
unfolding rpartition
rpartition-last sep [] t h = ground (arith, h, rpartition-none sep t h, ==_iff sep sep)
rpartition-last sep (c ∷ s) t h = ground (arith, rpartition-last sep s t h)

text_eq→≡ : (s t : Text) → text_eq s t ≡ true → s ≡ t
text_eq→≡ [] [] e = refl
text_eq→≡ [] (d ∷ t) e = absurd (cc e)
text_eq→≡ (c ∷ s) [] e = absurd (cc e)
text_eq→≡ (c ∷ s) (d ∷ t) e = ground (arith, e, text_eq→≡ s t)

decoded-value_part :
    (value : Option Text) → value ≢ some null_marker → decoded_value (value_part value) ≡ value
decoded-value_part none h = refl
decoded-value_part (some value) h = elim (Bool-cases (text_eq value null_marker)) [
  | inl e ↦ absurd (h (ap some (text_eq→≡ value null_marker e)))
  | inr e ↦ rw e refl
]

append-nil : (s : Text) → s ++ [] ≡ s
append-nil [] = refl
append-nil (c ∷ s) = ap (λ (t : Text). c ∷ t) (append-nil s)

-- What a cursor without a key could be misread for: a value with the separator.
abbrev pub IsPlain : Option Text → Option Text → Type 0
IsPlain value (some pk) = has pk_sep pk ≡ false
IsPlain value none = has pk_sep (value_part value) ≡ false

parts-round_trip :
    (value pk : Option Text)
    → value ≢ some null_marker
    → IsPlain value pk
    → let rest = value_part value ++ pk_part pk in
      parts_of rest (rpartition pk_sep rest) ≡ (value, pk)
parts-round_trip value (some pk) h plain =
    rw (rpartition-last pk_sep (value_part value) pk plain, decoded-value_part value h) refl
parts-round_trip value none h plain =
    rw
      (
        append-nil (value_part value),
        rpartition-none pk_sep (value_part value) plain,
        decoded-value_part value h,
      )
      refl

-- Decoding a cursor gives the value and the key that it was encoded from, where the key does not
-- hold the separator, a cursor without a key has no separator in its value, the value is not the
-- marker's own text, and the base64 library gives back what it encoded.
pub decode_cursor_parts-encode_cursor :
    {Token : Type 0} (base64 : Base64 Token) (value pk : Option Text)
    → IsFaithful base64
    → value ≢ some null_marker
    → IsPlain value pk
    → decode_cursor_parts base64 (encode_cursor base64 value pk) ≡ some (value, pk)
unfolding decode_cursor_parts encode_cursor
decode_cursor_parts-encode_cursor base64 value pk faithful h plain =
    ap from_raw (faithful (prefix ++ (b':' ∷ (value_part value ++ pk_part pk))))
    ∙ ap some (parts-round_trip value pk h plain)
