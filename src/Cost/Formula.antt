-- ===== src/Cost/Formula.antt =====
-- The formula of cost.py's header, by recursion on the selections and with no stack, table or
-- guard: cost(field) = own_cost + multiplier * sum(cost(child) for child in children).
-- `spread_value` gives a spread's cost for a fragment's name and the type it is resolved against.
pub mod Ranked
use text.Mathlib.Text.{starts_with}
use django_graphex.Common.{
  ℕ, zero, suc, ◌+◌, ◌*◌, String, Option, none, some, lookup, true, false, if◌then◌else◌,
}
use django_graphex.Graphql.Ast.{
  FieldHead, FieldDef, Selection, leaf, field, inline, spread, Selections, nil, cons, NamedType,
  type_or,
}
use django_graphex.Graphql.Directives.{is_selection_skipped}
use django_graphex.Cost.Weights.{Context, own_cost, directive_cost, list_multiplier}
use django_graphex.Cost.Analyzer.{Names, inline_type}

abbrev pub Spreads : Type 0
Spreads = String → NamedType → ℕ

abbrev pub leaf_cost : Context → FieldHead → Option FieldDef → ℕ
leaf_cost ctx head none = 0
leaf_cost ctx head (some d) =
    own_cost ctx.runtime (ctx.runtime.get_named_type d.type) false
    + directive_cost ctx.settings head.directives

module _ (ctx : Context) (names : Names) (spread_value : Spreads) where
  unfoldable mutual
    pub selection_cost : Selection → NamedType → ℕ
    selection_cost (leaf head) t =
        if is_selection_skipped ctx.runtime (leaf head) ctx.variable_values
        then 0
        else if starts_with head.name "__"
        then 0
        else leaf_cost ctx head (lookup head.name t.fields)
    selection_cost (field head selections) t =
        let children : ℕ = elim (lookup head.name t.fields) [
          | none ↦ 0
          | some d ↦
              own_cost ctx.runtime (ctx.runtime.get_named_type d.type) true
              + directive_cost ctx.settings head.directives
              + list_multiplier ctx head d
                * selections_cost selections (ctx.runtime.get_named_type d.type)
        ] in
        if is_selection_skipped ctx.runtime (field head selections) ctx.variable_values
        then 0
        else if starts_with head.name "__"
        then 0
        else children
    selection_cost (inline condition directives selections) t =
        let children = selections_cost selections (inline_type names.schema condition t) in
        if is_selection_skipped ctx.runtime (inline condition directives selections)
          ctx.variable_values
        then 0
        else children
    selection_cost (spread name directives) t =
        if is_selection_skipped ctx.runtime (spread name directives) ctx.variable_values
        then 0
        else (elim (names.get_fragment name) [
          | none ↦ 0
          | some frag ↦ spread_value name (type_or names.schema frag.type_condition t)
        ])

    pub selections_cost : Selections → NamedType → ℕ
    selections_cost nil t = 0
    selections_cost (cons selection more) t = selection_cost selection t + selections_cost more t

-- Spreads unfolded at most `k` deep: the cost of a fragment's own selections.
unfoldable pub spread_cost : Context → Names → ℕ → Spreads
spread_cost ctx names zero name t = 0
spread_cost ctx names (suc k) name t = elim (names.get_fragment name) [
  | none ↦ 0
  | some frag ↦ selections_cost ctx names (spread_cost ctx names k) frag.selection_set t
]
