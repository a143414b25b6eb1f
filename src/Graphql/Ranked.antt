-- ===== src/Graphql/Ranked.antt =====
-- Documents whose fragments do not refer to one another in a circle: each has a rank above those
-- that it spreads.
use django_graphex.Common.{
  ℕ, ◌<◌, ◌≡◌, String, Bool, true, false, ◌||◌, Option, some, arith, str_eq, eq_iff, eq_refl, ap,
}
use django_graphex.Graphql.Ast.{
  Selection, leaf, field, inline, spread, Selections, nil, cons, Fragment,
}

-- Every spread among the selections names a fragment of rank below `k`.
abbrev mutual
  pub SpreadsBelow : (String → ℕ) → ℕ → Selections → Type 0
  SpreadsBelow rank k nil = Unit
  SpreadsBelow rank k (cons selection more) =
      SpreadBelow rank k selection × SpreadsBelow rank k more

  pub SpreadBelow : (String → ℕ) → ℕ → Selection → Type 0
  SpreadBelow rank k (leaf head) = Unit
  SpreadBelow rank k (field head selections) = SpreadsBelow rank k selections
  SpreadBelow rank k (inline condition directives selections) = SpreadsBelow rank k selections
  SpreadBelow rank k (spread name directives) = rank name < k

pub record Ranked (get_fragment : String → Option Fragment) (rank : String → ℕ) : Type 0 where
  pub below :
      (name : String) (frag : Fragment)
      → get_fragment name ≡ some frag
      → SpreadsBelow rank (rank name) frag.selection_set

-- `name` is spread somewhere in the selections.
unfoldable mutual
  pub spreads : String → Selections → Bool
  spreads name nil = false
  spreads name (cons s more) = spreads_in name s || spreads name more

  pub spreads_in : String → Selection → Bool
  spreads_in name (leaf head) = false
  spreads_in name (field head s) = spreads name s
  spreads_in name (inline condition directives s) = spreads name s
  spreads_in name (spread target directives) = str_eq target name

module _ (rank : String → ℕ) (k : ℕ) where
  mutual
    unfolding spreads

    pub SpreadsBelow-spreads :
        (s : Selections) (name : String)
        → SpreadsBelow rank k s
        → spreads name s ≡ true
        → rank name < k
    SpreadsBelow-spreads nil name b e = cc
    SpreadsBelow-spreads (cons s more) name b e =
        ground (arith, SpreadBelow-spreads s name b.0, SpreadsBelow-spreads more name b.1)

    SpreadBelow-spreads :
        (s : Selection) (name : String)
        → SpreadBelow rank k s
        → spreads_in name s ≡ true
        → rank name < k
    SpreadBelow-spreads (leaf head) name b e = cc
    SpreadBelow-spreads (field head s) name b e = SpreadsBelow-spreads s name b e
    SpreadBelow-spreads (inline condition directives s) name b e = SpreadsBelow-spreads s name b e
    SpreadBelow-spreads (spread target directives) name b e =
        ground (arith, eq_iff target name, ap rank {x = target} {y = name})

  mutual
    unfolding spreads

    pub SpreadsBelow-intro :
        (s : Selections)
        → ((name : String) → spreads name s ≡ true → rank name < k)
        → SpreadsBelow rank k s
    SpreadsBelow-intro nil h = tt
    SpreadsBelow-intro (cons s more) h = (
      SpreadBelow-intro s (λ name e. h name (rw e)),
      SpreadsBelow-intro more (λ name e. h name (ground arith)),
    )

    SpreadBelow-intro :
        (s : Selection)
        → ((name : String) → spreads_in name s ≡ true → rank name < k)
        → SpreadBelow rank k s
    SpreadBelow-intro (leaf head) h = tt
    SpreadBelow-intro (field head s) h = SpreadsBelow-intro s h
    SpreadBelow-intro (inline condition directives s) h = SpreadsBelow-intro s h
    SpreadBelow-intro (spread target directives) h = h target (eq_refl target)
