-- ===== src/Socket/Json.antt =====
-- Decoded JSON frames, as the handlers read them. A mapping has each key once. Numbers are natural
-- here: a handler asks of them only whether they are zero and whether two are equal.
use django_graphex.Common.{
  ℕ, Bool, true, false, not, ◌≡◌, String, Option, none, some, str_eq, eq_iff, eq_refl, ◌==◌,
  if◌then◌else◌, arith,
}

mutual
  pub data Json : Type 0 where
    null : Json
    boolean : Bool → Json
    number : ℕ → Json
    string : String → Json
    array : Items → Json
    object : Members → Json

  pub data Items : Type 0 where
    nothing : Items
    item : Json → Items → Items

  pub data Members : Type 0 where
    empty : Members
    member : String → Json → Members → Members

-- `content.get(k)`: None and a missing key are one answer.
abbrev pub get : String → Members → Json
get k empty = null
get k (member j v rest) = if str_eq j k then v else get k rest

-- `bool(value)`
abbrev pub is_truthy : Json → Bool
is_truthy null = false
is_truthy (boolean b) = b
is_truthy (number n) = not (n == 0)
is_truthy (string s) = not (str_eq s "")
is_truthy (array nothing) = false
is_truthy (array (item v rest)) = true
is_truthy (object empty) = false
is_truthy (object (member k v rest)) = true

abbrev pub is_null : Json → Bool
is_null null = true
is_null _ = false

-- A dictionary's key for a value: True and 1 are one key. None is no operation's ID.
pub data Key : Type 0 where
  number_key : ℕ → Key
  string_key : String → Key

-- The key of a value that can be hashed; a handler asks for None's before.
abbrev pub key_of : Json → Option Key
key_of null = none
key_of (boolean b) = some (number_key (if b then 1 else 0))
key_of (number n) = some (number_key n)
key_of (string s) = some (string_key s)
key_of (array items) = none
key_of (object members) = none

abbrev pub key_eq : Key → Key → Bool
key_eq (number_key m) (number_key n) = m == n
key_eq (string_key s) (string_key t) = str_eq s t
key_eq (number_key m) (string_key t) = false
key_eq (string_key s) (number_key n) = false

pub key_eq_refl : (k : Key) → key_eq k k ≡ true
key_eq_refl (number_key n) = ground arith
key_eq_refl (string_key s) = eq_refl s

pub key_eq→≡ : (j k : Key) → key_eq j k ≡ true → j ≡ k
key_eq→≡ (number_key m) (number_key n) e = ground arith
key_eq→≡ (string_key s) (string_key t) e = ground (arith, eq_iff s t)
key_eq→≡ (number_key m) (string_key t) e = absurd (cc e)
key_eq→≡ (string_key s) (number_key n) e = absurd (cc e)
