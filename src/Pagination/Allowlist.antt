-- ===== src/Pagination/Allowlist.antt =====
-- The columns that a client can sort by: those that the type shows.
use django_graphex.Common.{
  Bool, true, false, not, ◌&&◌, ◌||◌, ◌≡◌, Option, some, List, [], ◌∷◌, ◌++◌, map, ◌⊎◌,
}
use django_graphex.StrConv.Snake.{is_ascii}
use django_graphex.Pagination.Terms.{
  Text, Ordering, joined, listed, Model, is_signed, among, meets, pk_names, has_lookup,
}
use django_graphex.Pagination.Plain.{column_of, ArePlain, term_column}
use django_graphex.Pagination.Queryset.{Query, Term, IsReplacing}

-- Whether a column is one that the type shows: a concrete one, named in `allowed` and spanning no
-- relation, or a name of the key where `allowed` has one of these.
abbrev pub is_exposed : Model → List Text → Text → Bool
is_exposed model allowed name =
    (among name model.concrete_attnames && among name allowed && not (has_lookup name))
    || (among name (pk_names model) && meets (pk_names model) allowed)

-- Only ASCII characters are in the ordering.
abbrev pub are_ascii : Ordering → Bool
are_ascii (joined t) = is_ascii t
are_ascii (listed []) = true
are_ascii (listed (t ∷ terms)) = is_ascii t && are_ascii (listed terms)

abbrev pub are_exposed : Model → List Text → List Text → Bool
are_exposed model allowed [] = true
are_exposed model allowed (t ∷ terms) =
    is_exposed model allowed (column_of t) && are_exposed model allowed terms

-- The terms that an option holds are checked ones.
abbrev IsChecked : Model → List Text → List Text → Option (List Text) → Type 0
IsChecked model allowed client o =
    o ≡ some client → (are_exposed model allowed client ≡ true) × ArePlain client

-- The columns of the terms are those of client's terms that the type shows, and then nothing or the
-- key.
abbrev pub AreClients : Model → List Text → List Term → Type 0
AreClients model allowed terms =
    (client : List Text) × (tail : List Text) × (are_exposed model allowed client ≡ true)
    × (map term_column terms ≡ map column_of client ++ tail)
    × ((tail ≡ []) ⊎ (tail ≡ model.pk_attname ∷ []))

module _ (order_by : List Text → Query → Query) (laws : IsReplacing order_by) (model : Model)
    (plain_pk : is_signed model.pk_attname ≡ false) (query : Query) where
  module _ (allowed : List Text) (terms : List Term) where
    -- The terms that an option holds are those of a client.
    abbrev HoldsClients : Option (List Term) → Type 0
    HoldsClients o = o ≡ some terms → AreClients model allowed terms
