-- ===== src/Depth/Walker.antt =====
-- `DepthLimitValidationRule._walk`: a stack of open selection sets, the set of spreads that are
-- proven clean, and a guard against cycles. The walk ends with none or the constraint it reports.
use text.Mathlib.Text.{starts_with}
use django_graphex.Common.{
  ℕ, suc, ◌+◌, Bool, true, false, ◌&&◌, String, Option, none, some, List, [], ◌∷◌, lookup, contains,
  if◌then◌else◌, str_eq, ◌==◌,
}
use django_graphex.Machine.{Next, going, done, run}
use django_graphex.Graphql.Ast.{
  FieldHead, Selection, leaf, field, inline, spread, Selections, nil, cons, Fragment, NamedType,
  FieldDef, Runtime, type_or,
}
use django_graphex.Graphql.Directives.{is_selection_skipped}
use django_graphex.Cost.Analyzer.{Names, inline_type, discard}
use django_graphex.Depth.Limits.{Constraint, first_exceeded, child_constraints, budget}

-- A fragment, the type it is resolved against, and the tightest budget left.
pub record SpreadKey : Type 0 where
  pub name : String
  pub type_name : String
  pub budget : Option ℕ

abbrev opt_eq : Option ℕ → Option ℕ → Bool
opt_eq none none = true
opt_eq (some a) (some b) = a == b
opt_eq _ _ = false

-- `spread_key in self._clean_spreads`
abbrev pub is_clean : SpreadKey → List SpreadKey → Bool
is_clean key [] = false
is_clean key (k ∷ clean) =
    let rest = is_clean key clean in
    if str_eq k.name key.name && (str_eq k.type_name key.type_name && opt_eq k.budget key.budget)
    then true
    else rest

pub record Frame : Type 0 where
  pub selections : Selections
  pub parent_type : NamedType
  pub depth : ℕ
  pub constraints : List Constraint
  pub key : Option SpreadKey
  pub cuts_before : ℕ

pub record Walk : Type 0 where
  pub top : Frame
  pub stack : List Frame
  pub active : List String
  pub clean_spreads : List SpreadKey
  pub cycle_cuts : ℕ

-- What a walk leaves: the constraint that it reports, if any, and the rule's state.
pub record Found : Type 0 where
  pub reported : Option Constraint
  pub clean_spreads : List SpreadKey
  pub cycle_cuts : ℕ

abbrev pub found : Option Constraint → Walk → Found
found reported w = record {
  reported = reported;
  clean_spreads = w.clean_spreads;
  cycle_cuts = w.cycle_cuts;
}

abbrev pub Step : Type 0
Step = Next Walk Found

abbrev open_level :
    Walk → Selections → NamedType → ℕ → List Constraint → Option SpreadKey → ℕ → List String → Step
open_level w selections t depth constraints key cuts active = going (record w {
  top = record {
    selections = selections;
    parent_type = t;
    depth = depth;
    constraints = constraints;
    key = key;
    cuts_before = cuts;
  };
  stack = w.top ∷ w.stack;
  active = active;
})

enter_field : Runtime → Selections → Walk → Option FieldDef → Step
enter_field rt selections w none = going w
enter_field rt selections w (some field_def) =
    let t = rt.get_named_type field_def.type in
    let child_depth = w.top.depth + 1 in
    open_level w selections t child_depth (child_constraints rt w.top.constraints t child_depth)
      none 0 w.active

-- The budgets are checked before the field is looked up.
check_field : Runtime → FieldHead → Selections → Walk → Option Constraint → Step
unfolding enter_field
check_field rt head selections w (some constraint) = done (found (some constraint) w)
check_field rt head selections w none =
    enter_field rt selections w (lookup head.name w.top.parent_type.fields)

enter_spread : Names → String → Walk → Option Fragment → Step
enter_spread names name w none = going w
enter_spread names name w (some frag) =
    let t = type_or names.schema frag.type_condition w.top.parent_type in
    let key : SpreadKey = record {
      name = name;
      type_name = t.name;
      budget = budget w.top.constraints w.top.depth;
    } in
    if is_clean key w.clean_spreads
    then going w
    else open_level w frag.selection_set t w.top.depth w.top.constraints (some key) w.cycle_cuts
        (name ∷ w.active)

unfoldable pub visit : Runtime → Names → Selection → Walk → Step
unfolding check_field enter_spread
visit rt names (leaf head) w = going w
visit rt names (field head selections) w =
    if starts_with head.name "__"
    then going w
    else check_field rt head selections w (first_exceeded w.top.constraints (w.top.depth + 1))
visit rt names (inline condition directives selections) w =
    open_level w selections (inline_type names.schema condition w.top.parent_type) w.top.depth
      w.top.constraints none 0 w.active
visit rt names (spread name directives) w =
    if contains name w.active
    then going (record w { cycle_cuts = suc w.cycle_cuts })
    else enter_spread names name w (names.get_fragment name)

abbrev pub leave : Option SpreadKey → List String → List String
leave none active = active
leave (some key) active = discard key.name active

abbrev pub mark : Option SpreadKey → Bool → List SpreadKey → List SpreadKey
mark (some key) true clean = key ∷ clean
mark _ _ clean = clean

-- A level without a violation is popped; the loop ends with the last one.
unfoldable pub close_level : Walk → List Frame → Step
close_level w [] = done (
    found none (record w {
      clean_spreads = mark w.top.key (w.top.cuts_before == w.cycle_cuts) w.clean_spreads;
    }))
close_level w (outer ∷ stack) = going (record {
  top = outer;
  stack = stack;
  active = leave w.top.key w.active;
  clean_spreads = mark w.top.key (w.top.cuts_before == w.cycle_cuts) w.clean_spreads;
  cycle_cuts = w.cycle_cuts;
})

step_on : Runtime → Names → Walk → Selections → Step
unfolding visit close_level
step_on rt names w nil = close_level w w.stack
step_on rt names w (cons selection more) =
    let w' = record w { top = record w.top { selections = more } } in
    if is_selection_skipped rt selection [] then going w' else visit rt names selection w'

unfoldable pub step : Runtime → Names → Walk → Step
unfolding step_on
step rt names w = step_on rt names w w.top.selections

-- `_walk`, from the rule's state; none is a walk that ran out of fuel.
unfoldable pub walk :
    Runtime
    → Names
    → ℕ
    → Selections
    → NamedType
    → ℕ
    → List Constraint
    → List SpreadKey
    → ℕ
    → Option Found
walk rt names fuel selections t depth constraints clean cuts = run (step rt names) fuel (record {
  top = record {
    selections = selections;
    parent_type = t;
    depth = depth;
    constraints = constraints;
    key = none;
    cuts_before = 0;
  };
  stack = [];
  active = [];
  clean_spreads = clean;
  cycle_cuts = cuts;
})
