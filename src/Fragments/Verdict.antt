-- ===== src/Fragments/Verdict.antt =====
-- What the verdict of `find_fragment_cycle` means: none exactly when the fragments can be ranked,
-- each above the fragments that it spreads.
use django_graphex.Common.{
  ℕ, suc, ◌≤◌, ◌<◌, ◌≡◌, refl, ◌↔◌, true, ◌&&◌, String, List, Option, none, some, contains, lookup,
  length, arith, Bool-cases, inl, inr,
}
use django_graphex.Graphql.Ast.{Fragment, Definition}
use django_graphex.Graphql.Ranked.{Ranked, SpreadsBelow-intro, SpreadsBelow-spreads, spreads}
use django_graphex.Fragments.{keys, targets_of, zeros, fragments_of, find_fragment_cycle}
use django_graphex.Fragments.Building.{targets-build}
use django_graphex.Fragments.Reduction.Indegree.{count}
use django_graphex.Fragments.Ranks.{Ranks, reduce-Ranks, reduce-AllZero}
use django_graphex.Fragments.Start.{
  fragments, graph, graph_keys, build-IsGraph, start-Inv, enough_rounds, first_left-none,
  first_left_zero, lookup-keys, keys-lookup, count_all,
}

-- `fragments.get`
abbrev pub get_fragment : List Definition → String → Option Fragment
get_fragment definitions name = lookup name (fragments_of definitions)

-- No fragment refers to itself, directly or through others: ranks, at most the number of fragments.
pub record IsAcyclic (definitions : List Definition) : Type 0 where
  pub rank : String → ℕ
  pub ranked : Ranked (get_fragment definitions) rank
  pub bounded : (name : String) → rank name ≤ length (fragments_of definitions)

module _ (definitions : List Definition) where
  edge_at :
      (x name : String) (frag : Fragment)
      → get_fragment definitions name ≡ some frag
      → contains x (targets_of (graph definitions).edges name)
        ≡ (contains x (keys (fragments definitions)) && spreads x frag.selection_set)
  edge_at x name frag e =
      targets-build (keys (fragments definitions)) x name (fragments definitions) (λ n. 0) frag e

  below-Ranks :
      (rank : String → ℕ) (x name : String) (frag : Fragment)
      → Ranks (graph definitions).edges (λ n. true) rank
      → get_fragment definitions name ≡ some frag
      → spreads x frag.selection_set ≡ true
      → rank x < rank name
  below-Ranks rank x name frag r e s =
      elim (Bool-cases (contains x (keys (fragments definitions)))) [
        | inl k ↦ r.above name x known refl (ground (arith, edge_at x name frag e))
        | inr k ↦
            omega (arith, r.strangers x (rw (graph_keys definitions) k), r.from_one name known refl)
      ]
    where
      known : contains name (keys (graph definitions).edges) ≡ true
      known = rw (graph_keys definitions) (keys-lookup name (fragments definitions) frag e)

  entries : count (keys (graph definitions).edges) (λ n. true) ≡ length (fragments definitions)
  entries = rw (graph_keys definitions) (count_all (fragments definitions))

  pub none-IsAcyclic : find_fragment_cycle definitions ≡ none → IsAcyclic definitions
  unfolding find_fragment_cycle
  none-IsAcyclic e =
      let (rank, r) =
        reduce-Ranks (graph definitions).edges (build-IsGraph definitions)
          (suc (length (fragments definitions))) (λ name. true)
          (zeros (keys (fragments definitions)) (graph definitions).incoming)
          (graph definitions).incoming (start-Inv definitions) (enough_rounds definitions)
          (λ x k.
            first_left-none (fragments definitions) _ x e (rw (← graph_keys definitions) k)) in
      record {
        rank = rank;
        ranked = record {
          below = λ name frag e'.
              SpreadsBelow-intro rank (rank name) frag.selection_set
                (λ x s. below-Ranks rank x name frag r e' s);
        };
        bounded = λ name. omega (arith, r.at_most name, entries);
      }

  above-IsAcyclic :
      (a : IsAcyclic definitions) (m x : String)
      → contains m (keys (graph definitions).edges) ≡ true
      → contains x (targets_of (graph definitions).edges m) ≡ true
      → a.rank x < a.rank m
  above-IsAcyclic a m x k c =
      let (frag, e) = lookup-keys m (fragments definitions) (rw (← graph_keys definitions) k) in
      SpreadsBelow-spreads a.rank (a.rank m) frag.selection_set x (a.ranked.below m frag e)
        (ground (arith, edge_at x m frag e))

  pub IsAcyclic-none : IsAcyclic definitions → find_fragment_cycle definitions ≡ none
  unfolding find_fragment_cycle
  IsAcyclic-none a = first_left_zero (fragments definitions) _ (λ x k.
      reduce-AllZero (graph definitions).edges (build-IsGraph definitions)
        (suc (length (fragments definitions))) (λ name. true)
        (zeros (keys (fragments definitions)) (graph definitions).incoming)
        (graph definitions).incoming a.rank (length (fragments definitions)) (start-Inv definitions)
        (enough_rounds definitions) (above-IsAcyclic a) a.bounded x (rw (graph_keys definitions) k))

-- A document passes the cycle check exactly when its fragments can be ranked, each above the
-- fragments that it spreads at any depth, with ranks of at most the number of fragments.
pub find_fragment_cycle-none_iff :
    (definitions : List Definition)
    → (find_fragment_cycle definitions ≡ none) ↔ IsAcyclic definitions
find_fragment_cycle-none_iff definitions = (none-IsAcyclic definitions, IsAcyclic-none definitions)
