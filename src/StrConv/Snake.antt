-- ===== src/StrConv/Snake.antt =====
-- `to_snake_case` and the two substitutions that it makes.
use Prim.Native.Char.{code}
use django_graphex.Common.{
  ℕ, ◌+◌, Bool, true, false, ◌&&◌, ◌||◌, String, List, [], ◌∷◌, ◌++◌, map, leb, if◌then◌else◌,
}

-- The code points of a text.
unfoldable pub codes : String → List ℕ
codes String.[] = []
codes (String.◌∷◌ c s) = code c ∷ codes s

abbrev pub is_upper : ℕ → Bool
is_upper c = leb b'A' c && leb c b'Z'

abbrev pub is_lower : ℕ → Bool
is_lower c = leb b'a' c && leb c b'z'

abbrev pub is_digit : ℕ → Bool
is_digit c = leb b'0' c && leb c b'9'

-- The capitals read so far, with `_` before the last of two or more.
unfoldable pub break_run : List ℕ → List ℕ
break_run [] = []
break_run (a ∷ []) = a ∷ []
break_run (a ∷ b ∷ []) = a ∷ b'_' ∷ b ∷ []
break_run (a ∷ run) = a ∷ break_run run

-- `re.sub(r"([A-Z]+)([A-Z][a-z])", r"\1_\2", value)`: a match is a run of two or more capitals
-- with a lower-case letter behind it. `run` holds the capitals read since the last other letter.
unfoldable pub sub_acronyms : List ℕ → List ℕ → List ℕ
sub_acronyms run [] = run
sub_acronyms run (c ∷ s) =
    let rest = sub_acronyms (if is_upper c then run ++ c ∷ [] else []) s in
    if is_upper c then rest else (if is_lower c then break_run run else run) ++ c ∷ rest

-- `re.sub(r"([a-z\d])([A-Z])", r"\1_\2", result)`: `after` tells whether the letter before is in
-- `[a-z\d]`.
unfoldable pub sub_words : Bool → List ℕ → List ℕ
sub_words after [] = []
sub_words after (c ∷ s) =
    let rest = sub_words (is_lower c || is_digit c) s in
    if after && is_upper c then b'_' ∷ c ∷ rest else c ∷ rest

-- `lower()`, of an ASCII letter
unfoldable pub lower : ℕ → ℕ
lower c = if is_upper c then c + 32 else c

-- `to_snake_case`, of an ASCII name: outside of ASCII, Python's `\d` and `lower()` know more digits
-- and letters.
unfoldable pub to_snake_case : List ℕ → List ℕ
unfolding break_run sub_acronyms sub_words lower
to_snake_case value = map lower (sub_words false (sub_acronyms [] value))

-- Only ASCII characters are in the name.
abbrev pub is_ascii : List ℕ → Bool
is_ascii [] = true
is_ascii (c ∷ s) = leb c 127 && is_ascii s
