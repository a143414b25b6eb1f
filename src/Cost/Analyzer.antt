-- ===== src/Cost/Analyzer.antt =====
-- `_CostAnalyzer._selection_set_cost`: the walk with an explicit stack, a memo table for spreads
-- and a guard against cycles. One step treats one selection of the innermost open level, or closes
-- that level.
use text.Mathlib.Text.{starts_with}
use django_graphex.Common.{
  ℕ, suc, ◌+◌, ◌*◌, Bool, true, false, ◌&&◌, String, Option, none, some, List, [], ◌∷◌, lookup,
  contains, if◌then◌else◌, str_eq, ◌==◌,
}
use django_graphex.Machine.{Next, going, done, run}
use django_graphex.Graphql.Ast.{
  FieldHead, Selection, leaf, field, inline, spread, Selections, nil, cons, Fragment, NamedType,
  FieldDef, Schema, Operation, type_or, root_type,
}
use django_graphex.Graphql.Directives.{is_selection_skipped}
use django_graphex.Cost.Weights.{Context, own_cost, directive_cost, list_multiplier}

abbrev pub Key : Type 0
Key = String × String

abbrev pub Memo : Type 0
Memo = List (Key × ℕ)

abbrev pub key_eq : Key → Key → Bool
key_eq (a, b) (c, d) = str_eq a c && str_eq b d

-- `self._spread_costs.get(key)`
abbrev pub recall : Key → Memo → Option ℕ
recall key [] = none
recall key ((k, cost) ∷ memo) = if key_eq k key then some cost else recall key memo

-- `active.discard(name)`
abbrev pub discard : String → List String → List String
discard name [] = []
discard name (a ∷ active) =
    let rest = discard name active in if str_eq a name then rest else a ∷ rest

-- An open level of the walk. `weights` is the own cost and the multiplier of a field, `key` the
-- memo key of a spread, `cuts_before` the counter when that spread was entered.
pub record Frame : Type 0 where
  pub selections : Selections
  pub level_type : NamedType
  pub total : ℕ
  pub weights : Option (ℕ × ℕ)
  pub key : Option Key
  pub cuts_before : ℕ

-- The innermost level, the levels around it, and the rest of the walk's state.
pub record Walk : Type 0 where
  pub top : Frame
  pub stack : List Frame
  pub active : List String
  pub spread_costs : Memo
  pub cycle_cuts : ℕ

-- One round of the loop, which ends with the total.
abbrev pub Step : Type 0
Step = Next Walk ℕ

-- The schema and the fragments that an analyzer resolves names by.
pub record Names : Type 0 where
  pub schema : Schema
  pub get_fragment : String → Option Fragment

abbrev pub open_level :
    Walk → Selections → NamedType → Option (ℕ × ℕ) → Option Key → ℕ → List String → Step
open_level w selections t weights key cuts active = going (record w {
  top = record {
    selections = selections;
    level_type = t;
    total = 0;
    weights = weights;
    key = key;
    cuts_before = cuts;
  };
  stack = w.top ∷ w.stack;
  active = active;
})

abbrev pub add_cost : Walk → ℕ → Walk
add_cost w n = record w { top = record w.top { total = w.top.total + n } }

visit_leaf : Context → FieldHead → Walk → Option FieldDef → Step
visit_leaf ctx head w none = going w
visit_leaf ctx head w (some field_def) = going (
    add_cost w (
      own_cost ctx.runtime (ctx.runtime.get_named_type field_def.type) false
      + directive_cost ctx.settings head.directives))

visit_field : Context → FieldHead → Selections → Walk → Option FieldDef → Step
visit_field ctx head selections w none = going w
visit_field ctx head selections w (some field_def) =
    let t = ctx.runtime.get_named_type field_def.type in
    let own = own_cost ctx.runtime t true + directive_cost ctx.settings head.directives in
    open_level w selections t (some (own, list_multiplier ctx head field_def)) none 0 w.active

-- The type of an inline fragment's level.
abbrev pub inline_type : Schema → Option String → NamedType → NamedType
inline_type schema none t = t
inline_type schema (some name) t = type_or schema name t

-- A spread that the guard lets through: its memoized cost, or a level of its own.
spread_level : String → Fragment → NamedType → Walk → Option ℕ → Step
spread_level name frag t w (some cost) = going (add_cost w cost)
spread_level name frag t w none =
    open_level w frag.selection_set t none (some (name, t.name)) w.cycle_cuts (name ∷ w.active)

visit_spread : Names → String → Walk → Option Fragment → Step
unfolding spread_level
visit_spread names name w none = going w
visit_spread names name w (some frag) =
    let t = type_or names.schema frag.type_condition w.top.level_type in
    spread_level name frag t w (recall (name, t.name) w.spread_costs)

-- One selection of the innermost level, which the iterator has already left behind.
unfoldable pub visit : Context → Names → Selection → Walk → Step
unfolding visit_leaf visit_field visit_spread
visit ctx names (leaf head) w =
    if starts_with head.name "__"
    then going w
    else visit_leaf ctx head w (lookup head.name w.top.level_type.fields)
visit ctx names (field head selections) w =
    if starts_with head.name "__"
    then going w
    else visit_field ctx head selections w (lookup head.name w.top.level_type.fields)
visit ctx names (inline condition directives selections) w =
    open_level w selections (inline_type names.schema condition w.top.level_type) none none 0
      w.active
visit ctx names (spread name directives) w =
    if contains name w.active
    then going (record w { cycle_cuts = suc w.cycle_cuts })
    else visit_spread names name w (names.get_fragment name)

-- The closed level's total goes to the level around it.
unfoldable pub weighted : Option (ℕ × ℕ) → ℕ → ℕ
weighted none total = total
weighted (some (own, multiplier)) total = own + multiplier * total

abbrev pub leave : Option (ℕ × ℕ) → Option Key → List String → List String
leave none (some (name, _)) active = discard name active
leave _ _ active = active

abbrev pub remember : Option (ℕ × ℕ) → Option Key → Bool → ℕ → Memo → Memo
remember none (some key) true total memo = (key, total) ∷ memo
remember _ _ _ total memo = memo

unfoldable pub close_level : Walk → List Frame → Step
unfolding weighted
close_level w [] = done w.top.total
close_level w (outer ∷ stack) =
    let frame = w.top in
    going (record {
      top = record outer { total = outer.total + weighted frame.weights frame.total };
      stack = stack;
      active = leave frame.weights frame.key w.active;
      spread_costs =
          remember frame.weights frame.key (frame.cuts_before == w.cycle_cuts) frame.total
            w.spread_costs;
      cycle_cuts = w.cycle_cuts;
    })

step_on : Context → Names → Walk → Selections → Step
unfolding visit close_level
step_on ctx names w nil = close_level w w.stack
step_on ctx names w (cons selection more) =
    let w' = record w { top = record w.top { selections = more } } in
    if is_selection_skipped ctx.runtime selection ctx.variable_values
    then going w'
    else visit ctx names selection w'

unfoldable pub step : Context → Names → Walk → Step
unfolding step_on
step ctx names w = step_on ctx names w w.top.selections

abbrev pub start : Selections → NamedType → Walk
start selections t = record {
  top = record {
    selections = selections;
    level_type = t;
    total = 0;
    weights = none;
    key = none;
    cuts_before = 0;
  };
  stack = [];
  active = [];
  spread_costs = [];
  cycle_cuts = 0;
}

-- `operation_cost`: `while True` on fuel; none means that the fuel ran out.
unfoldable pub operation_cost : Context → Names → ℕ → Operation → Option ℕ
unfolding run
operation_cost ctx names fuel op = elim (root_type names.schema op.operation) [
  | none ↦ some 0
  | some t ↦ run (step ctx names) fuel (start op.selection_set t)
]
