-- ===== src/Depth/Budget/Fits.antt =====
-- A selection set nests at most `b` more levels, each type's own `max_depth` observed below it.
use text.Mathlib.Text.{starts_with}
use django_graphex.Common.{
  ℕ, zero, suc, ◌-◌, min, Bool, true, false, ◌&&◌, String, Option, none, some, lookup, [],
  if◌then◌else◌, ◌==◌,
}
use django_graphex.Graphql.Ast.{
  Selection, leaf, field, inline, spread, Selections, nil, cons, NamedType, Runtime, type_or,
}
use django_graphex.Graphql.Directives.{is_selection_skipped}
use django_graphex.Cost.Analyzer.{Names, inline_type}
use django_graphex.Depth.Limits.{type_max_depth}

abbrev pub SpreadFits : Type 0
SpreadFits = String → NamedType → ℕ → Bool

-- The levels left below a field: one less, and at most the type's own limit.
abbrev pub below_field : Option ℕ → ℕ → ℕ
below_field none b = b - 1
below_field (some limit) b = min (b - 1) limit

module _ (rt : Runtime) (names : Names) (spread_fits : SpreadFits) where
  unfoldable mutual
    pub fits_in : Selection → NamedType → ℕ → Bool
    fits_in (leaf head) t b = true
    fits_in (field head selections) t b =
        let below : Bool = elim (lookup head.name t.fields) [
          | none ↦ true
          | some d ↦
              fits selections (rt.get_named_type d.type)
                (below_field (type_max_depth rt (rt.get_named_type d.type)) b)
        ] in
        if is_selection_skipped rt (field head selections) []
        then true
        else if starts_with head.name "__"
        then true
        else if b == 0
        then false
        else below
    fits_in (inline condition directives selections) t b =
        let below = fits selections (inline_type names.schema condition t) b in
        if is_selection_skipped rt (inline condition directives selections) [] then true else below
    fits_in (spread name directives) t b =
        if is_selection_skipped rt (spread name directives) []
        then true
        else (elim (names.get_fragment name) [
          | none ↦ true
          | some frag ↦ spread_fits name (type_or names.schema frag.type_condition t) b
        ])

    pub fits : Selections → NamedType → ℕ → Bool
    fits nil t b = true
    fits (cons selection more) t b = fits_in selection t b && fits more t b

-- Spreads unfolded at most `k` deep.
unfoldable pub spread_fits : Runtime → Names → ℕ → SpreadFits
spread_fits rt names zero name t b = true
spread_fits rt names (suc k) name t b = elim (names.get_fragment name) [
  | none ↦ true
  | some frag ↦ fits rt names (spread_fits rt names k) frag.selection_set t b
]
