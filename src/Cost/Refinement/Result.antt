-- ===== src/Cost/Refinement/Result.antt =====
-- The walk returns the formula's cost.
use native.Mathlib.Nat.{zero-add}
use django_graphex.Common.{ℕ, ◌<◌, ◌≤◌, ◌≡◌, String, none, some, [], arith}
use django_graphex.Graphql.Ast.{
  Selection, leaf, field, inline, spread, Selections, nil, cons, NamedType, Operation, root_type,
}
use django_graphex.Cost.Weights.{Context}
use django_graphex.Cost.Analyzer.{Names, step, start, operation_cost}
use django_graphex.Machine.{run}
use django_graphex.Cost.Formula.{selections_cost, spread_cost}
use django_graphex.Graphql.Ranked.{SpreadsBelow, SpreadBelow, Ranked}
use django_graphex.Cost.Formula.Ranked.{spread_cost_unfold}
use django_graphex.Machine.{run-done}
use django_graphex.Cost.Refinement.Assumptions.{TypeMap, Known, IsTrue-nil}
use django_graphex.Cost.Refinement.Fuel.{spread_steps, enough, spread_steps_unfold}
use django_graphex.Cost.Refinement.Levels.Steps.{WalkedBelow}
use django_graphex.Cost.Refinement.Levels.Whole.{walked}

module _ (rank : String → ℕ) (k : ℕ) (low : (name : String) → rank name < k) where
  mutual
    pub SpreadsBelow-all : (s : Selections) → SpreadsBelow rank k s
    SpreadsBelow-all nil = tt
    SpreadsBelow-all (cons s more) = (SpreadBelow-all s, SpreadsBelow-all more)

    SpreadBelow-all : (s : Selection) → SpreadBelow rank k s
    SpreadBelow-all (leaf head) = tt
    SpreadBelow-all (field head s) = SpreadsBelow-all s
    SpreadBelow-all (inline condition directives s) = SpreadsBelow-all s
    SpreadBelow-all (spread name directives) = low name

module _ (ctx : Context) (names : Names) (types : TypeMap ctx.runtime names.schema)
    (rank : String → ℕ) (ranked : Ranked names.get_fragment rank) (k : ℕ)
    (low : (name : String) → rank name < k) where
  every_level :
      (j : ℕ) → WalkedBelow ctx names (spread_cost ctx names k) (spread_steps names k) rank j
  every_level =
      walked ctx names types (spread_cost ctx names k)
        (λ name frag t e. spread_cost_unfold ctx names rank ranked k name frag t e (low name))
        (spread_steps names k)
        (λ name frag e. spread_steps_unfold names rank ranked k name frag e (low name)) rank ranked

  run-start :
      (s : Selections) (t : NamedType) (fuel : ℕ)
      → Known names.schema t
      → enough names k s ≤ fuel
      → run (step ctx names) fuel (start s t)
        ≡ some (selections_cost ctx names (spread_cost ctx names k) s t)
  unfolding enough step
  run-start s t fuel known le =
      let (memo, true_memo, lead) =
        every_level k s t 0 none none 0 [] [] [] 0 known (SpreadsBelow-all rank k low s) tt
          (IsTrue-nil names.schema (spread_cost ctx names k)) in
      lead 1 (selections_cost ctx names (spread_cost ctx names k) s t) fuel
        (run-done (step ctx names) 0 _ _ (rw zero-add)) (omega arith)

  -- With enough fuel the walk of an operation returns the cost that the formula gives it.
  pub operation_cost_lem :
      (op : Operation) (t : NamedType) (fuel : ℕ)
      → root_type names.schema op.operation ≡ some t
      → enough names k op.selection_set ≤ fuel
      → operation_cost ctx names fuel op
        ≡ some (selections_cost ctx names (spread_cost ctx names k) op.selection_set t)
  unfolding operation_cost
  operation_cost_lem op t fuel e le =
      rw (e, operation_cost)
        (run-start op.selection_set t fuel (types.with_roots op.operation t e) le)
