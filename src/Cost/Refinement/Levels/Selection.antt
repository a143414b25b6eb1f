-- ===== src/Cost/Refinement/Levels/Selection.antt =====
-- One selection of a level: how the walk treats each kind.
use text.Mathlib.Text.{starts_with}
use django_graphex.Common.{
  ℕ, ◌+◌, ◌*◌, ◌≡◌, ◌⊎◌, refl, String, true, false, Option, none, some, List, ◌∷◌, lookup, contains,
  arith, Bool-cases, Option-cases, inl, inr, ◌==◌,
}
use django_graphex.Graphql.Ast.{
  Selection, leaf, field, inline, spread, Selections, nil, cons, Fragment, FieldDef, FieldHead,
  NamedType, type_or, Directive,
}
use django_graphex.Graphql.Directives.{is_selection_skipped}
use django_graphex.Cost.Weights.{Context, own_cost, directive_cost, list_multiplier}
use django_graphex.Cost.Analyzer.{
  Names, Memo, Key, Frame, Walk, step, recall, weighted, inline_type, leave, remember,
}
use django_graphex.Machine.{going}
use django_graphex.Cost.Formula.{Spreads, selection_cost, selections_cost}
use django_graphex.Cost.Refinement.Levels.Steps.{level, walk}

module _ (ctx : Context) (names : Names) (f : Spreads) (more : Selections) (t : NamedType)
    (total : ℕ) (weights : Option (ℕ × ℕ)) (key : Option Key) (c0 : ℕ) (stack : List Frame)
    (active : List String) (memo : Memo) (cuts : ℕ) where
  -- The state in front of a selection, the state behind it, and the state at the first selection
  -- of a level that it opens.
  abbrev pub before : Selection → Walk
  before s = walk (level (cons s more) t total weights key c0) stack active memo cuts

  abbrev pub after : ℕ → Walk
  after n = walk (level more t n weights key c0) stack active memo cuts

  abbrev pub inside : Selections → NamedType → Option (ℕ × ℕ) → Option Key → ℕ → List String → Walk
  inside s u w k c names' =
      walk (level s u 0 w k c) (level more t total weights key c0 ∷ stack) names' memo cuts

  pub step-leaf :
      (head : FieldHead)
      → step ctx names (before (leaf head))
        ≡ going (after (total + selection_cost ctx names f (leaf head) t))
  unfolding step selection_cost
  step-leaf head = ground arith

  -- A field that costs nothing, or one that opens a level.
  pub step-field :
      (head : FieldHead) (s : Selections)
      → ((step ctx names (before (field head s)) ≡ going (after total))
          × (selection_cost ctx names f (field head s) t ≡ 0))
        ⊎ ((d : FieldDef) × (own : ℕ) × (multiplier : ℕ) × (lookup head.name t.fields ≡ some d)
            × (step ctx names (before (field head s))
                ≡ going (
                    inside s
                      (ctx.runtime.get_named_type d.type)
                      (some (own, multiplier))
                      none
                      0
                      active))
            × (selection_cost ctx names f (field head s) t
                ≡ own
                  + multiplier * selections_cost ctx names f s (ctx.runtime.get_named_type d.type)))
  unfolding step selection_cost
  step-field head s =
      elim (Bool-cases (is_selection_skipped ctx.runtime (field head s) ctx.variable_values)) [
        | inl e ↦ inl (ground arith, ground arith)
        | inr e ↦ elim (Bool-cases (starts_with head.name "__")) [
          | inl e' ↦ inl (ground arith, ground arith)
          | inr e' ↦ elim (Option-cases (lookup head.name t.fields)) [
            | inl n ↦ inl (ground arith, ground arith)
            | inr (d, n) ↦ inr (
              d,
              own_cost ctx.runtime (ctx.runtime.get_named_type d.type) true
                  + directive_cost ctx.settings head.directives,
              list_multiplier ctx head d,
              n,
              ground arith,
              ground arith,
            )
          ]
        ]
      ]

  pub step-inline :
      (condition : Option String) (directives : List Directive) (s : Selections)
      → ((step ctx names (before (inline condition directives s)) ≡ going (after total))
          × (selection_cost ctx names f (inline condition directives s) t ≡ 0))
        ⊎ ((step ctx names (before (inline condition directives s))
              ≡ going (inside s (inline_type names.schema condition t) none none 0 active))
            × (selection_cost ctx names f (inline condition directives s) t
                ≡ selections_cost ctx names f s (inline_type names.schema condition t)))
  unfolding step selection_cost
  step-inline condition directives s =
      elim (Bool-cases
        (is_selection_skipped ctx.runtime (inline condition directives s) ctx.variable_values)) [
          | inl e ↦ inl (ground arith, ground arith)
          | inr e ↦ inr (ground arith, ground arith)
        ]

  -- A spread that costs nothing, a memoized one, or one that opens a level.
  pub step-spread :
      (name : String) (directives : List Directive)
      → contains name active ≡ false
      → ((step ctx names (before (spread name directives)) ≡ going (after total))
          × (selection_cost ctx names f (spread name directives) t ≡ 0))
        ⊎ ((frag : Fragment) × (names.get_fragment name ≡ some frag)
            × (selection_cost ctx names f (spread name directives) t
                ≡ f name (type_or names.schema frag.type_condition t))
            × (((cost : ℕ) × (recall (name, (type_or names.schema frag.type_condition t).name) memo
                    ≡ some cost)
                  × (step ctx names (before (spread name directives))
                      ≡ going (after (total + cost))))
                ⊎ (step ctx names (before (spread name directives))
                    ≡ going (
                        inside frag.selection_set
                          (type_or names.schema frag.type_condition t)
                          none
                          (some (name, (type_or names.schema frag.type_condition t).name))
                          cuts
                          (name ∷ active)))))
  unfolding step selection_cost
  step-spread name directives closed =
      elim (Bool-cases
        (is_selection_skipped ctx.runtime (spread name directives) ctx.variable_values)) [
          | inl e ↦ inl (ground arith, ground arith)
          | inr e ↦ elim (Option-cases (names.get_fragment name)) [
            | inl n ↦ inl (ground arith, ground arith)
            | inr (frag, n) ↦ inr (
              frag,
              n,
              ground arith,
              elim (Option-cases
                  (recall (name, (type_or names.schema frag.type_condition t).name) memo)) [
                    | inl r ↦ inr (ground arith)
                    | inr (cost, r) ↦ inl (cost, r, ground arith)
                  ],
            )
          ]
        ]

-- The end of a level: its weighted total goes to the level around it.
pub step-close :
    (ctx : Context) (names : Names) (t u : NamedType) (total outer : ℕ) (w v : Option (ℕ × ℕ))
    (k j : Option Key) (c0 c1 : ℕ) (more : Selections) (stack : List Frame) (active : List String)
    (memo : Memo) (cuts : ℕ)
    → step ctx names
        (walk (level nil t total w k c0) (level more u outer v j c1 ∷ stack) active memo cuts)
      ≡ going (
          walk
            (level more u (outer + weighted w total) v j c1)
            stack
            (leave w k active)
            (remember w k (c0 == cuts) total memo)
            cuts)
unfolding step
step-close ctx names t u total outer w v k j c0 c1 more stack active memo cuts = refl
