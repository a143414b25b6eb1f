-- ===== src/Pagination/Size.antt =====
-- `_positive_int` and `_resolve_page_size`.
use django_graphex.Common.{
  ℕ, zero, suc, min, Bool, true, ◌&&◌, Option, none, some, ℤ, pos, negsuc, ◌==◌, if◌then◌else◌,
  String,
}

-- The clean errors that a client sees; `reason` stands for those of the ordering.
pub data PageError : Type 0 where
  invalid_size : ℤ → PageError
  invalid_offset : ℤ → PageError
  zero_page : PageError
  invalid_ordering : String → PageError

pub data Result {ℓ} (A : Type ℓ) : Type ℓ where
  ok : A → Result A
  graphql_error : PageError → Result A

-- `if cutoff: return min(ret, cutoff)`
abbrev pub clamp : ℕ → Option ℕ → ℕ
clamp n none = n
clamp n (some zero) = n
clamp n (some (suc cutoff)) = min n (suc cutoff)

-- `_positive_int` of an int; none is its ValueError.
unfoldable pub positive_int : ℤ → Bool → Option ℕ → Option ℕ
positive_int (negsuc n) strict cutoff = none
positive_int (pos n) strict cutoff = if n == 0 && strict then none else some (clamp n cutoff)

abbrev pub at_most : ℕ → Option ℕ → ℕ
at_most n none = n
at_most n (some maximum) = min n maximum

abbrev pub as_int : Option ℕ → Option ℤ
as_int none = none
as_int (some n) = some (pos n)

-- `requested`, or else `default`, or else `maximum`.
abbrev pub choice : Option ℤ → Option ℤ → Option ℕ → Option ℤ
choice (some requested) default maximum = some requested
choice none (some default) maximum = some default
choice none none maximum = as_int maximum

abbrev pub checked : Option ℕ → ℤ → Option ℕ → Result (Option ℕ)
checked maximum value none = graphql_error (invalid_size value)
checked maximum value (some n) = ok (some (at_most n maximum))

-- `_resolve_page_size`, with a label.
unfoldable pub resolve_page_size : Option ℤ → Option ℤ → Option ℕ → Result (Option ℕ)
unfolding positive_int
resolve_page_size requested default maximum = elim (choice requested default maximum) [
  | none ↦ ok none
  | some value ↦ checked maximum value (positive_int value true none)
]
