-- ===== src/Cost/Refinement/Levels/Steps.antt =====
-- The steps that a level takes, at most, and the statement about a level.
use django_graphex.Common.{ℕ, ◌+◌, String, Option, List}
use django_graphex.Graphql.Ast.{
  Selection, leaf, field, inline, spread, Selections, nil, cons, NamedType,
}
use django_graphex.Cost.Weights.{Context}
use django_graphex.Cost.Analyzer.{Names, Memo, Key, Frame, Walk, step}
use django_graphex.Cost.Formula.{Spreads, selections_cost}
use django_graphex.Graphql.Ranked.{SpreadsBelow}
use django_graphex.Machine.{Leads}
use django_graphex.Cost.Refinement.Assumptions.{Known, OpenFrom, IsTrue}

-- A step for each selection, and one more for each level that it opens.
unfoldable mutual
  pub selection_steps : (String → ℕ) → Selection → ℕ
  selection_steps spread_bound (leaf head) = 1
  selection_steps spread_bound (field head selections) =
      2 + selections_steps spread_bound selections
  selection_steps spread_bound (inline condition directives selections) =
      2 + selections_steps spread_bound selections
  selection_steps spread_bound (spread name directives) = 2 + spread_bound name

  pub selections_steps : (String → ℕ) → Selections → ℕ
  selections_steps spread_bound nil = 0
  selections_steps spread_bound (cons selection more) =
      selection_steps spread_bound selection + selections_steps spread_bound more

abbrev pub level : Selections → NamedType → ℕ → Option (ℕ × ℕ) → Option Key → ℕ → Frame
level s t total weights key cuts = record {
  selections = s;
  level_type = t;
  total = total;
  weights = weights;
  key = key;
  cuts_before = cuts;
}

abbrev pub walk : Frame → List Frame → List String → Memo → ℕ → Walk
walk top stack active memo cuts = record {
  top = top;
  stack = stack;
  active = active;
  spread_costs = memo;
  cycle_cuts = cuts;
}

-- The walk gets through `s` and adds `cost`.
abbrev pub Through : Context → Names → Spreads → ℕ → Walk → (Memo → Walk) → Type 0
Through ctx names f n w w' =
    (memo : Memo) × IsTrue names.schema f memo × Leads (step ctx names) n w (w' memo)

module _ (ctx : Context) (names : Names) (f : Spreads) (bound : String → ℕ)
    (rank : String → ℕ) where
  -- Levels whose spreads have rank below `k`.
  abbrev pub WalkedBelow : ℕ → Type 0
  WalkedBelow k =
      (s : Selections) (t : NamedType) (total : ℕ) (weights : Option (ℕ × ℕ)) (key : Option Key)
      (c0 : ℕ) (stack : List Frame) (active : List String) (memo : Memo) (cuts : ℕ)
      → Known names.schema t
      → SpreadsBelow rank k s
      → OpenFrom rank k active
      → IsTrue names.schema f memo
      → Through ctx names f (selections_steps bound s)
          (walk (level s t total weights key c0) stack active memo cuts)
          (λ memo'.
            walk (level nil t (total + selections_cost ctx names f s t) weights key c0) stack active
              memo' cuts)
