-- ===== src/Depth/Refinement/Selection.antt =====
-- One selection of a level: how the walk treats each kind.
use text.Mathlib.Text.{starts_with}
use django_graphex.Common.{
  ℕ, ◌+◌, ◌≡◌, ◌⊎◌, refl, String, true, false, Option, none, some, List, ◌∷◌, [], lookup, contains,
  arith, Bool-cases, Option-cases, inl, inr, ◌==◌,
}
use django_graphex.Graphql.Ast.{
  Selection, leaf, field, inline, spread, Selections, nil, cons, Fragment, FieldDef, FieldHead,
  NamedType, Runtime, type_or, Directive,
}
use django_graphex.Graphql.Directives.{is_selection_skipped}
use django_graphex.Cost.Analyzer.{Names, inline_type}
use django_graphex.Machine.{going, done}
use django_graphex.Depth.Limits.{Constraint, first_exceeded, child_constraints, budget}
use django_graphex.Depth.Walker.{SpreadKey, Frame, Walk, is_clean, step, leave, mark}
use django_graphex.Depth.Reference.{Spreads, violation_in, violations}
use django_graphex.Depth.Refinement.Outcome.{level, state, result, spread_key}

module _ (rt : Runtime) (names : Names) (f : Spreads) (more : Selections) (t : NamedType)
    (depth : ℕ) (cs : List Constraint) (key : Option SpreadKey) (c0 : ℕ) (stack : List Frame)
    (active : List String) (clean : List SpreadKey) (cuts : ℕ) where
  -- The state in front of a selection, the state behind it, and the state at the first selection
  -- of a level that it opens.
  abbrev pub before : Selection → Walk
  before s = state (level (cons s more) t depth cs key c0) stack active clean cuts

  abbrev pub after : Walk
  after = state (level more t depth cs key c0) stack active clean cuts

  abbrev pub inside :
      Selections → NamedType → ℕ → List Constraint → Option SpreadKey → ℕ → List String → Walk
  inside s u d cs' k c open_names =
      state (level s u d cs' k c) (level more t depth cs key c0 ∷ stack) open_names clean cuts

  pub step-leaf : (head : FieldHead) → step rt names (before (leaf head)) ≡ going after
  unfolding step
  step-leaf head = ground arith

  -- A field without a violation of its own, one with, or one that opens a level.
  pub step-field :
      (head : FieldHead) (s : Selections)
      → ((step rt names (before (field head s)) ≡ going after)
          × (violation_in rt names f (field head s) t cs depth ≡ none))
        ⊎ ((c : Constraint) × (step rt names (before (field head s))
              ≡ done (result (some c) clean cuts))
            × (violation_in rt names f (field head s) t cs depth ≡ some c))
        ⊎ ((d : FieldDef) × (lookup head.name t.fields ≡ some d)
            × (first_exceeded cs (depth + 1) ≡ none)
            × (step rt names (before (field head s))
                ≡ going (
                    inside s
                      (rt.get_named_type d.type)
                      (depth + 1)
                      (child_constraints rt cs (rt.get_named_type d.type) (depth + 1))
                      none
                      0
                      active))
            × (violation_in rt names f (field head s) t cs depth
                ≡ violations rt names f s
                    (rt.get_named_type d.type)
                    (child_constraints rt cs (rt.get_named_type d.type) (depth + 1))
                    (depth + 1)))
  unfolding step violation_in
  step-field head s = elim (Bool-cases (is_selection_skipped rt (field head s) [])) [
    | inl e ↦ inl (ground arith, ground arith)
    | inr e ↦ elim (Bool-cases (starts_with head.name "__")) [
      | inl e' ↦ inl (ground arith, ground arith)
      | inr e' ↦ elim (Option-cases (first_exceeded cs (depth + 1))) [
        | inr (c, x) ↦ inr (inl (c, ground arith, ground arith))
        | inl x ↦ elim (Option-cases (lookup head.name t.fields)) [
          | inl n ↦ inl (ground arith, ground arith)
          | inr (d, n) ↦ inr (inr (d, n, x, ground arith, ground arith))
        ]
      ]
    ]
  ]

  pub step-inline :
      (condition : Option String) (directives : List Directive) (s : Selections)
      → ((step rt names (before (inline condition directives s)) ≡ going after)
          × (violation_in rt names f (inline condition directives s) t cs depth ≡ none))
        ⊎ ((step rt names (before (inline condition directives s))
              ≡ going (inside s (inline_type names.schema condition t) depth cs none 0 active))
            × (violation_in rt names f (inline condition directives s) t cs depth
                ≡ violations rt names f s (inline_type names.schema condition t) cs depth))
  unfolding step violation_in
  step-inline condition directives s =
      elim (Bool-cases (is_selection_skipped rt (inline condition directives s) [])) [
        | inl e ↦ inl (ground arith, ground arith)
        | inr e ↦ inr (ground arith, ground arith)
      ]

  -- A spread without a fragment, a clean one, or one that opens a level.
  pub step-spread :
      (name : String) (directives : List Directive) (b : ℕ)
      → contains name active ≡ false
      → budget cs depth ≡ some b
      → ((step rt names (before (spread name directives)) ≡ going after)
          × (violation_in rt names f (spread name directives) t cs depth ≡ none))
        ⊎ ((frag : Fragment) × (names.get_fragment name ≡ some frag)
            × (violation_in rt names f (spread name directives) t cs depth
                ≡ f name (type_or names.schema frag.type_condition t) cs depth)
            × (((is_clean (spread_key name (type_or names.schema frag.type_condition t) b) clean
                    ≡ true)
                  × (step rt names (before (spread name directives)) ≡ going after))
                ⊎ (step rt names (before (spread name directives))
                    ≡ going (
                        inside frag.selection_set
                          (type_or names.schema frag.type_condition t)
                          depth
                          cs
                          (some (spread_key name (type_or names.schema frag.type_condition t) b))
                          cuts
                          (name ∷ active)))))
  unfolding step violation_in
  step-spread name directives b closed left =
      elim (Bool-cases (is_selection_skipped rt (spread name directives) [])) [
        | inl e ↦ inl (ground arith, ground arith)
        | inr e ↦ elim (Option-cases (names.get_fragment name)) [
          | inl n ↦ inl (ground arith, ground arith)
          | inr (frag, n) ↦ inr (
            frag,
            n,
            ground arith,
            elim (Bool-cases
                (is_clean (spread_key name (type_or names.schema frag.type_condition t) b) clean)) [
                  | inl r ↦ inl (r, ground arith)
                  | inr r ↦ inr (ground arith)
                ],
          )
        ]
      ]

-- The end of a level without a violation.
pub step-close :
    (rt : Runtime) (names : Names) (t u : NamedType) (depth outer : ℕ) (cs cs' : List Constraint)
    (k j : Option SpreadKey) (c0 c1 : ℕ) (more : Selections) (stack : List Frame)
    (active : List String) (clean : List SpreadKey) (cuts : ℕ)
    → step rt names
        (state (level nil t depth cs k c0) (level more u outer cs' j c1 ∷ stack) active clean cuts)
      ≡ going (
          state
            (level more u outer cs' j c1)
            stack
            (leave k active)
            (mark k (c0 == cuts) clean)
            cuts)
unfolding step
step-close rt names t u depth outer cs cs' k j c0 c1 more stack active clean cuts = refl
