-- ===== src/Pagination/Provenance.antt =====
-- The ordering that a window asks for and the one that a page is put in: they are one, and the
-- page's comes with the allowlist that its provenance earns.
use django_graphex.Common.{
  Bool, true, false, ◌≡◌, refl, ◌⊎◌, inl, inr, Option, none, some, List, if◌then◌else◌,
}
use django_graphex.Pagination.Size.{Result, PageError, ok, graphql_error}
use django_graphex.Pagination.Terms.{
  Text, Ordering, is_falsy, normalize_ordering, resolve_ordering, with_allowed,
}
use django_graphex.Pagination.Source.{
  Source, resolved_ordering, normalized_ordering, in_result, argument_or_default,
}

-- The allowlist goes with what the client supplied.
abbrev pub provenance : Option Ordering → Option (List Text) → Option (List Text)
provenance none allowed = none
provenance (some requested) allowed = if is_falsy requested then none else allowed

with_allowed-ok :
    (allowed : Option (List Text)) (o : Option Ordering) (order : Ordering)
    → in_result o ≡ ok order
    → in_result (with_allowed allowed o) ≡ ok (order, allowed)
with_allowed-ok allowed none order e = absurd (cc e)
with_allowed-ok allowed (some o) order e = cc e

-- One of two orderings is chosen, and its allowlist with it.
chosen-ok :
    (f : Ordering → Option Ordering) (b : Bool) (default requested : Ordering)
    (allowed : Option (List Text)) (order : Ordering)
    → in_result (f (if b then default else requested)) ≡ ok order
    → in_result (if b then with_allowed none (f default) else with_allowed allowed (f requested))
      ≡ ok (order, if b then none else allowed)
chosen-ok f true default requested allowed order e = with_allowed-ok none (f default) order e
chosen-ok f false default requested allowed order e = with_allowed-ok allowed (f requested) order e

resolve_ordering-normalized_ordering :
    (requested : Option Ordering) (default : Ordering) (allowed : Option (List Text))
    (order : Ordering)
    → in_result (normalize_ordering (argument_or_default requested default)) ≡ ok order
    → in_result (resolve_ordering requested default allowed)
      ≡ ok (order, provenance requested allowed)
unfolding resolve_ordering
resolve_ordering-normalized_ordering none default allowed order e =
    with_allowed-ok none (normalize_ordering default) order e
resolve_ordering-normalized_ordering (some requested) default allowed order e =
    chosen-ok normalize_ordering (is_falsy requested) default requested allowed order e

pub Result-cases :
    {A : Type 0} (r : Result A) → ((a : A) × (r ≡ ok a)) ⊎ ((e : PageError) × (r ≡ graphql_error e))
Result-cases (ok a) = inl (a, refl)
Result-cases (graphql_error e) = inr (e, refl)

pub resolved_ordering-normalized_ordering :
    {A : Type 0} (source : Source A) (order : Ordering)
    → normalized_ordering source ≡ ok order
    → resolved_ordering source ≡ ok (order, provenance source.requested source.allowed_attnames)
unfolding resolved_ordering normalized_ordering
resolved_ordering-normalized_ordering source order =
    resolve_ordering-normalized_ordering source.requested source.default source.allowed_attnames
      order
