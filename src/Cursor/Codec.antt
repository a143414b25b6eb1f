-- ===== src/Cursor/Codec.antt =====
-- `encode_cursor` and `decode_cursor_parts`. Texts are their code points.
use django_graphex.Common.{
  ℕ, Bool, true, false, ◌&&◌, ◌≡◌, Option, none, some, List, [], ◌∷◌, ◌++◌, ◌==◌, if◌then◌else◌,
}

abbrev pub Text : Type 0
Text = List ℕ

-- A text's UTF-8 bytes in URL-safe base64, and back; none where the token is malformed. Python's
-- library gives back what it encoded.
pub record Base64 (Token : Type 0) : Type 0 where
  pub encode : Text → Token
  pub decode : Token → Option Text

abbrev pub IsFaithful : {Token : Type 0} → Base64 Token → Type 0
IsFaithful base64 = (t : Text) → base64.decode (base64.encode t) ≡ some t

-- `_CURSOR_PK_SEP`
abbrev pub pk_sep : ℕ
pk_sep = 31

-- `_CURSOR_NULL`
abbrev pub null_marker : Text
null_marker = 0 ∷ []

abbrev pub prefix : Text
prefix = b'c' ∷ b'u' ∷ b'r' ∷ b's' ∷ b'o' ∷ b'r' ∷ []

abbrev pub text_eq : Text → Text → Bool
text_eq [] [] = true
text_eq [] (d ∷ t) = false
text_eq (c ∷ s) [] = false
text_eq (c ∷ s) (d ∷ t) = (c == d) && text_eq s t

-- `s.partition(sep)`: none where the separator is missing.
unfoldable pub partition : ℕ → Text → Option (Text × Text)
partition sep [] = none
partition sep (c ∷ s) =
    let rest = partition sep s in
    if c == sep
    then some ([], s)
    else elim rest [ none ↦ none | some (before, after) ↦ some (c ∷ before, after) ]

-- `s.rpartition(sep)`
unfoldable pub rpartition : ℕ → Text → Option (Text × Text)
rpartition sep [] = none
rpartition sep (c ∷ s) = elim (rpartition sep s) [
  | some (before, after) ↦ some (c ∷ before, after)
  | none ↦ if c == sep then some ([], s) else none
]

abbrev pub value_part : Option Text → Text
value_part none = null_marker
value_part (some value) = value

abbrev pub pk_part : Option Text → Text
pk_part none = []
pk_part (some pk) = pk_sep ∷ pk

unfoldable pub encode_cursor : {Token : Type 0} → Base64 Token → Option Text → Option Text → Token
encode_cursor base64 value pk = base64.encode (prefix ++ (b':' ∷ (value_part value ++ pk_part pk)))

-- A lone marker is a NULL value.
abbrev pub decoded_value : Text → Option Text
decoded_value value = if text_eq value null_marker then none else some value

abbrev pub parts_of : Text → Option (Text × Text) → Option Text × Option Text
parts_of rest none = (decoded_value rest, none)
parts_of rest (some (value, pk)) = (decoded_value value, some pk)

unfoldable pub checked_prefix : Option (Text × Text) → Option (Option Text × Option Text)
unfolding rpartition
checked_prefix none = none
checked_prefix (some (before, rest)) =
    if text_eq before prefix then some (parts_of rest (rpartition pk_sep rest)) else none

unfoldable pub from_raw : Option Text → Option (Option Text × Option Text)
unfolding checked_prefix partition
from_raw none = none
from_raw (some raw) = checked_prefix (partition b':' raw)

-- None for the ValueError of an invalid cursor.
unfoldable pub decode_cursor_parts :
    {Token : Type 0} → Base64 Token → Token → Option (Option Text × Option Text)
unfolding from_raw
decode_cursor_parts base64 cursor = from_raw (base64.decode cursor)
