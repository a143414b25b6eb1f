-- ===== src/Depth/Refinement/Result.antt =====
-- What the rule reports about a document.
use mathlib.Core.Option
use django_graphex.Common.{
  ℕ, ◌<◌, ◌≤◌, ◌≡◌, refl, String, false, not, Option, none, some, List, [], ◌∷◌, arith, inl, inr,
  Option-cases, min, is_some,
}
use django_graphex.Graphql.Ast.{
  Selections, nil, NamedType, Runtime, Schema, Operation, OperationType, Definition, root_type,
}
use django_graphex.Graphql.Ranked.{Ranked}
use django_graphex.Machine.{run-done}
use django_graphex.Fragments.{find_fragment_cycle}
use django_graphex.Fragments.Verdict.{none-IsAcyclic}
use django_graphex.Cost.Analyzer.{Names}
use django_graphex.Cost.Report.{document_names, operations_of}
use django_graphex.Cost.Report.Laws.{levels}
use django_graphex.Cost.Refinement.Assumptions.{TypeMap, Known}
use django_graphex.Cost.Refinement.Fuel.{spread_steps, enough, spread_steps_unfold}
use django_graphex.Cost.Refinement.Levels.Steps.{selections_steps}
use django_graphex.Cost.Refinement.Result.{SpreadsBelow-all}
use django_graphex.Depth.Limits.{Constraint, budget}
use django_graphex.Depth.Walker.{SpreadKey, step, walk}
use django_graphex.Depth.Rule.{
  max_structural_depth, initial_constraints, Rule, initial_rule, with_reported, after_walk,
  enter_document, enter_operation_definition, enter_operations, document_errors,
}
use django_graphex.Depth.Reference.{Spreads, violations, spread_violation}
use django_graphex.Depth.Budget.Fits.{fits, spread_fits}
use django_graphex.Depth.Budget.Agree.{Left, violations-budget}
use django_graphex.Depth.Refinement.Outcome.{IsProven, IsProven-nil, level, state, result, Outcome}
use django_graphex.Depth.Refinement.Stable.{spread_violation_unfold, spread_violation-budget}
use django_graphex.Depth.Refinement.Whole.{walked}

-- The levels that an operation may nest.
abbrev pub depth_budget : Option ℕ → ℕ
depth_budget none = max_structural_depth
depth_budget (some limit) = min limit max_structural_depth

Left-initial :
    (max_query_depth : Option ℕ) (op : OperationType)
    → Left (initial_constraints max_query_depth op) 0 (depth_budget max_query_depth)
unfolding initial_constraints budget
Left-initial none op = ((omega arith, omega arith, tt), refl)
Left-initial (some limit) op =
    ((omega arith, omega arith, (omega arith, omega arith, tt)), ground arith)

module _ (rt : Runtime) (names : Names) (types : TypeMap rt names.schema) (rank : String → ℕ)
    (ranked : Ranked names.get_fragment rank) (k : ℕ) (low : (name : String) → rank name < k) where
  ended :
      (s : Selections) (t : NamedType) (cs : List Constraint) (clean : List SpreadKey)
      (cuts fuel : ℕ) (r : Option Constraint)
      → enough names k s ≤ fuel
      → Outcome rt names
          (spread_violation rt names k)
          cuts
          (selections_steps (spread_steps names k) s)
          (state (level s t 0 cs none 0) [] [] clean cuts)
          (λ clean'. state (level nil t 0 cs none 0) [] [] clean' cuts)
          r
      → (clean' : List SpreadKey) × IsProven names.schema (spread_violation rt names k) clean'
        × (walk rt names fuel s t 0 cs clean cuts ≡ some (result r clean' cuts))
  unfolding enough walk step
  ended s t cs clean cuts fuel none le (clean', p, lead) =
      (clean', p, lead 1 _ fuel (run-done (step rt names) 0 _ _ refl) (omega arith))
  ended s t cs clean cuts fuel (some c) le (clean', p, ends) = (clean', p, ends fuel (omega arith))

  pub walk_lem :
      (s : Selections) (t : NamedType) (cs : List Constraint) (b : ℕ) (clean : List SpreadKey)
      (cuts fuel : ℕ)
      → Known names.schema t
      → Left cs 0 b
      → IsProven names.schema (spread_violation rt names k) clean
      → enough names k s ≤ fuel
      → (clean' : List SpreadKey) × IsProven names.schema (spread_violation rt names k) clean'
        × (walk rt names fuel s t 0 cs clean cuts
            ≡ some
                (result (violations rt names (spread_violation rt names k) s t cs 0) clean' cuts))
  walk_lem s t cs b clean cuts fuel known left proven le = ended s t cs clean cuts fuel _ le (
      walked rt names types (spread_violation rt names k)
        (λ name frag u c d e.
          spread_violation_unfold rt names rank ranked k name frag u c d e (low name))
        (spread_violation-budget rt names k) (spread_steps names k)
        (λ name frag e. spread_steps_unfold names rank ranked k name frag e (low name)) rank ranked
        cuts k s t 0 cs b none 0 [] [] clean known (SpreadsBelow-all rank k low s) tt left proven)

module _ (rt : Runtime) (max_query_depth : Option ℕ) (schema : Schema)
    (definitions : List Definition) where
  abbrev names_of : Names
  names_of = document_names schema definitions

  abbrev spread_of : Spreads
  spread_of = spread_violation rt (document_names schema definitions) (levels definitions)

  -- The first violation of an operation, in the document's order.
  abbrev pub first_violation : Operation → Option Constraint
  first_violation op = elim (root_type schema op.operation) [
    | none ↦ none
    | some t ↦
        violations rt names_of spread_of op.selection_set t
          (initial_constraints max_query_depth op.operation) 0
  ]

  abbrev pub first_violations : List Operation → List Constraint → List Constraint
  first_violations [] errors = errors
  first_violations (op ∷ operations) errors =
      first_violations operations (with_reported errors (first_violation op))

  abbrev pub AllEnough : ℕ → List Operation → Type 0
  AllEnough fuel [] = Unit
  AllEnough fuel (op ∷ operations) =
      (enough names_of (levels definitions) op.selection_set ≤ fuel) × AllEnough fuel operations

  module _ (types : TypeMap rt schema) (acyclic : find_fragment_cycle definitions ≡ none) where
    operation_lem :
        (op : Operation) (fuel : ℕ) (rule : Rule)
        → rule.cyclic_fragments ≡ false
        → IsProven schema spread_of rule.clean_spreads
        → enough names_of (levels definitions) op.selection_set ≤ fuel
        → (clean : List SpreadKey) × IsProven schema spread_of clean
          × (enter_operation_definition rt max_query_depth names_of fuel op rule
              ≡ some (record {
                cyclic_fragments = false;
                clean_spreads = clean;
                cycle_cuts = rule.cycle_cuts;
                errors = with_reported rule.errors (first_violation op);
              }))
    unfolding enter_operation_definition after_walk
    operation_lem op fuel rule open_cycle proven le =
        let a = none-IsAcyclic definitions acyclic in
        elim (Option-cases (root_type schema op.operation)) [
          | inl n ↦ (rule.clean_spreads, proven, ground arith)
          | inr (t, n) ↦
              let (clean, proven', e) =
                walk_lem rt names_of types a.rank a.ranked (levels definitions)
                  (λ name. omega (arith, a.bounded name)) op.selection_set t
                  (initial_constraints max_query_depth op.operation) (depth_budget max_query_depth)
                  rule.clean_spreads rule.cycle_cuts fuel (types.with_roots op.operation t n)
                  (Left-initial max_query_depth op.operation) proven le in
              (clean, proven', ground arith)
        ]

    operations_lem :
        (operations : List Operation) (fuel : ℕ) (rule : Rule)
        → rule.cyclic_fragments ≡ false
        → IsProven schema spread_of rule.clean_spreads
        → AllEnough fuel operations
        → Option.map
            (λ (r : Rule). r.errors)
            (enter_operations rt max_query_depth names_of fuel operations rule)
          ≡ some (first_violations operations rule.errors)
    unfolding enter_operations
    operations_lem [] fuel rule open_cycle proven le = refl
    operations_lem (op ∷ operations) fuel rule open_cycle proven le =
        let (clean, proven', e) = operation_lem op fuel rule open_cycle proven le.0 in
        rw (e, enter_operations)
          (operations_lem operations fuel
            (record {
              cyclic_fragments = false;
              clean_spreads = clean;
              cycle_cuts = rule.cycle_cuts;
              errors = with_reported rule.errors (first_violation op);
            })
            refl proven' le.1)

    initial_errors :
        (fuel : ℕ)
        → AllEnough fuel (operations_of definitions)
        → document_errors rt max_query_depth schema fuel definitions
          ≡ some (first_violations (operations_of definitions) [])
    unfolding document_errors enter_document initial_rule
    initial_errors fuel le =
        operations_lem (operations_of definitions) fuel (enter_document definitions initial_rule)
          (rw acyclic refl) (IsProven-nil schema spread_of) le

-- On a document without a fragment cycle, and with the stated fuel, the rule reports for each
-- operation, in order, the reference's first violation where it has one, whatever the walks of the
-- operations before it have proven clean.
pub document_errors-first_violations :
    (rt : Runtime) (max_query_depth : Option ℕ) (schema : Schema) (definitions : List Definition)
    (fuel : ℕ)
    → TypeMap rt schema
    → find_fragment_cycle definitions ≡ none
    → AllEnough rt max_query_depth schema definitions fuel (operations_of definitions)
    → document_errors rt max_query_depth schema fuel definitions
      ≡ some (first_violations rt max_query_depth schema definitions (operations_of definitions) [])
document_errors-first_violations rt max_query_depth schema definitions fuel types acyclic le =
    initial_errors rt max_query_depth schema definitions types acyclic fuel le

-- An operation has a first violation exactly when its selections nest deeper than the setting and
-- the structural ceiling allow, each type's own max_depth observed below it.
pub first_violation-fits :
    (rt : Runtime) (max_query_depth : Option ℕ) (schema : Schema) (definitions : List Definition)
    (op : Operation) (t : NamedType)
    → root_type schema op.operation ≡ some t
    → is_some (first_violation rt max_query_depth schema definitions op)
      ≡ not (
          fits rt
            (document_names schema definitions)
            (spread_fits rt (document_names schema definitions) (levels definitions))
            op.selection_set
            t
            (depth_budget max_query_depth))
first_violation-fits rt max_query_depth schema definitions op t e =
    rw (e, is_some)
      (violations-budget rt (document_names schema definitions) (levels definitions)
        op.selection_set t (initial_constraints max_query_depth op.operation) 0
        (depth_budget max_query_depth) (Left-initial max_query_depth op.operation))
