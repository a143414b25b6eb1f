-- ===== src/Cursor/Tests.antt =====
-- Columns that are printed in unary, and a list read in pages of two.
use django_graphex.Common.{
  ℕ, count, Bool, zero, suc, false, not, ◌&&◌, ◌≡◌, ◌≢◌, refl, ap, Option, none, some, List, [],
  ◌∷◌, ◌==◌, if◌then◌else◌, arith,
}
use django_graphex.Pagination.Size.{ok}
use django_graphex.Cursor.Codec.{
  Text, Base64, pk_sep, null_marker, encode_cursor, decode_cursor_parts,
}
use django_graphex.Cursor.RoundTrip.{has, decode_cursor_parts-encode_cursor}
use django_graphex.Cursor.Keyset.{
  Row, keyset_predicate, inmemory_after_cursor, legacy_value_predicate, is_trailing_null,
  keyset_predicate-inmemory, legacy_value_predicate-inmemory,
}
use django_graphex.Cursor.Order.{IsOrdered}
use django_graphex.Cursor.Pages.{Columns, read_pages}
use django_graphex.Cursor.Resume.{IsReadBack}
use django_graphex.Cursor.Reading.{read_pages-order}

abbrev plain_base64 : Base64 Text
plain_base64 = record { encode = λ t. t; decode = λ t. some t }

abbrev unary : ℕ → Text
unary zero = b'x' ∷ []
unary (suc n) = b'1' ∷ unary n

abbrev next : Option ℕ → Option ℕ
next none = none
next (some n) = some (suc n)

abbrev read_unary : Text → Option ℕ
read_unary [] = none
read_unary (c ∷ t) = let rest = read_unary t in if c == b'x' then some 0 else next rest

read_unary-unary : (n : ℕ) → read_unary (unary n) ≡ some n
read_unary-unary zero = refl
read_unary-unary (suc n) = ap next (read_unary-unary n)

unary-marker : (n : ℕ) → unary n ≢ null_marker
unary-marker zero e = absurd (ground (arith, e))
unary-marker (suc n) e = absurd (ground (arith, e))

has-unary : (n : ℕ) → has pk_sep (unary n) ≡ false
has-unary zero = refl
has-unary (suc n) = has-unary n

abbrev unary_columns : Columns Text
unary_columns = record {
  base64 = plain_base64;
  str_value = unary;
  coerce_value = read_unary;
  str_pk = unary;
  coerce_pk = read_unary;
}

unary_columns-IsReadBack : IsReadBack unary_columns
unary_columns-IsReadBack = record {
  faithful = λ t. refl;
  value_back = read_unary-unary;
  value_unmarked = unary-marker;
  pk_back = read_unary-unary;
  pk_plain = has-unary;
}

abbrev sample_rows : List Row
sample_rows =
    record { value = none; pk = 1 }
    ∷ record { value = some 2; pk = 2 }
    ∷ record { value = some 2; pk = 3 }
    ∷ record { value = some 1; pk = 4 }
    ∷ []

sample_pages :
    read_pages unary_columns false (ok 2) sample_rows 3 none
    ≡ record { value = some 1; pk = 4 }
      ∷ record { value = some 2; pk = 2 }
      ∷ record { value = some 2; pk = 3 }
      ∷ record { value = none; pk = 1 }
      ∷ []
unfolding read_pages
sample_pages = refl

decode_cursor_parts-encode_cursor_example :
    decode_cursor_parts plain_base64
      (encode_cursor plain_base64 (some (b'a' ∷ 31 ∷ [])) (some (b'7' ∷ [])))
    ≡ some (some (b'a' ∷ 31 ∷ []), some (b'7' ∷ []))
decode_cursor_parts-encode_cursor_example =
    decode_cursor_parts-encode_cursor plain_base64 (some (b'a' ∷ 31 ∷ [])) (some (b'7' ∷ []))
      (λ t. refl) (λ e. absurd (cc e)) refl

keyset_predicate-inmemory_example :
    keyset_predicate false (some 2) 2 none (record { value = none; pk = 1 })
    ≡ inmemory_after_cursor (record { value = none; pk = 1 }) false (some 2) (some 2)
keyset_predicate-inmemory_example =
    keyset_predicate-inmemory false (some 2) 2 (record { value = none; pk = 1 })

legacy_value_predicate-inmemory_example :
    legacy_value_predicate false (some 2) none (record { value = none; pk = 1 }) ≡ (
      inmemory_after_cursor (record { value = none; pk = 1 }) false (some 2) none
      && not (is_trailing_null false (some 2) (record { value = none; pk = 1 })))
legacy_value_predicate-inmemory_example =
    legacy_value_predicate-inmemory false (some 2) (record { value = none; pk = 1 })

read_pages-order_example :
    (read : List Row) × (read_pages unary_columns false (ok 2) sample_rows 4 none ≡ read)
    × IsOrdered false read
    × ((p : Row → Bool) → count p read ≡ count p sample_rows)
read_pages-order_example =
    read_pages-order unary_columns false 2 sample_rows 4 unary_columns-IsReadBack
      ((refl, (refl, (refl, tt))), ((refl, (refl, tt)), ((refl, tt), (tt, tt)))) (omega arith)
      (omega arith)
