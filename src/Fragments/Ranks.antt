-- ===== src/Fragments/Ranks.antt =====
-- The reduction leaves no degree above 0 exactly when the names can be ranked, each above its
-- targets.
use django_graphex.Common.{
  ℕ, zero, suc, ◌-◌, ◌≤◌, ◌<◌, ◌≡◌, ◌∙◌, refl, Bool, true, false, String, List, [], ◌∷◌, contains,
  arith, str_eq, eq_iff, eq_refl, if◌then◌else◌, Bool-cases, inl, inr,
}
use django_graphex.Fragments.{Degrees, release, reduce, keys, targets_of}
use django_graphex.Fragments.Building.{Edges}
use django_graphex.Fragments.Reduction.Release.{queue}
use django_graphex.Fragments.Reduction.Indegree.{
  kill, count, count-kill, indegree_source, indegree_pos,
}
use django_graphex.Fragments.Reduction.Invariant.{IsGraph, Inv, release-Inv}

-- Ranks for the names that are alive: above their targets, from 1 up, and 0 for strangers.
pub record Ranks (edges : Edges) (alive : String → Bool) (rank : String → ℕ) : Type 0 where
  pub above :
      (m x : String)
      → contains m (keys edges) ≡ true
      → alive m ≡ true
      → contains x (targets_of edges m) ≡ true
      → rank x < rank m
  pub from_one : (m : String) → contains m (keys edges) ≡ true → alive m ≡ true → 0 < rank m
  pub at_most : (x : String) → rank x ≤ count (keys edges) alive
  pub strangers : (x : String) → contains x (keys edges) ≡ false → rank x ≡ 0

abbrev pub AllZero : Edges → Degrees → Type 0
AllZero edges incoming = (x : String) → contains x (keys edges) ≡ true → incoming x ≡ 0

module _ (edges : Edges) (graph : IsGraph edges) where
  known :
      (alive : String → Bool) (name : String) (ready : List String) (incoming : Degrees)
      → Inv edges alive (name ∷ ready) incoming
      → contains name (keys edges) ≡ true
  known alive name ready incoming inv = inv.ready_known name (ground (arith, eq_refl name))

  counted :
      (alive : String → Bool) (name : String) (ready : List String) (incoming : Degrees)
      → Inv edges alive (name ∷ ready) incoming
      → suc (count (keys edges) (kill name alive)) ≡ count (keys edges) alive
  counted alive name ready incoming inv =
      count-kill name alive (keys edges) graph.keys_once (known alive name ready incoming inv)
        (inv.ready_alive name (ground (arith, eq_refl name)))

  -- With the name that a round takes ranked above the names that are left.
  add-Ranks :
      (alive : String → Bool) (name : String) (ready : List String) (incoming : Degrees)
      (rank : String → ℕ)
      → Inv edges alive (name ∷ ready) incoming
      → Ranks edges (kill name alive) rank
      → Ranks edges alive
          (λ x. if str_eq x name then suc (count (keys edges) (kill name alive)) else rank x)
  add-Ranks alive name ready incoming rank inv r = record {
    above = λ m x k a c. ground (
      arith,
      r.above m x,
      r.at_most x,
      indegree_pos edges alive m x k a c,
      inv.degree x,
      inv.ready_zero name,
      eq_refl name,
      eq_iff x name,
      eq_iff m name,
    );
    from_one = λ m k a. ground (arith, r.from_one m);
    at_most = λ x. ground (arith, r.at_most x, counted alive name ready incoming inv);
    strangers =
        λ x s. ground (arith, r.strangers x, known alive name ready incoming inv, eq_iff x name);
  }

  pub reduce-Ranks :
      (fuel : ℕ) (alive : String → Bool) (ready : List String) (incoming : Degrees)
      → Inv edges alive ready incoming
      → count (keys edges) alive < fuel
      → AllZero edges (reduce edges fuel (queue ready incoming)).incoming
      → (rank : String → ℕ) × Ranks edges alive rank
  unfolding reduce
  reduce-Ranks zero alive ready incoming inv le zeros = absurd (omega arith)
  reduce-Ranks (suc fuel) alive [] incoming inv le zeros = (
    (λ x. 0),
    record {
      above = λ m x k a c. cc (inv.zero_ready m k a (zeros m k));
      from_one = λ m k a. cc (inv.zero_ready m k a (zeros m k));
      at_most = λ x. omega arith;
      strangers = λ x s. refl;
    },
  )
  reduce-Ranks (suc fuel) alive (name ∷ ready) incoming inv le zeros =
      let after = release (targets_of edges name) (queue ready incoming) in
      let (rank, r) =
        reduce-Ranks fuel (kill name alive) after.ready after.incoming
          (release-Inv edges graph alive name ready incoming inv)
          (omega (arith, counted alive name ready incoming inv)) zeros in
      (
        (λ x. if str_eq x name then suc (count (keys edges) (kill name alive)) else rank x),
        add-Ranks alive name ready incoming rank inv r,
      )

  -- With the queue empty and ranks at hand no name is left: a living one of highest rank would
  -- have degree 0 and stand in the queue.
  none_left :
      (alive : String → Bool) (incoming : Degrees) (rank : String → ℕ) (top b : ℕ)
      → Inv edges alive [] incoming
      → ((m x : String)
          → contains m (keys edges) ≡ true
          → contains x (targets_of edges m) ≡ true
          → rank x < rank m)
      → ((x : String) → rank x ≤ top)
      → (x : String) → contains x (keys edges) ≡ true
      → alive x ≡ true
      → top - rank x < b
      → ⊥
  none_left alive incoming rank top zero inv above low x k a le = omega arith
  none_left alive incoming rank top (suc b) inv above low x k a le =
      let (m, km, am, c) =
        indegree_source edges alive x graph.keys_once
          (λ z. cc (inv.zero_ready x k a (inv.degree x ∙ z))) in
      none_left alive incoming rank top b inv above low m km am
        (omega (arith, above m x km c, low m, low x))

  pub reduce-AllZero :
      (fuel : ℕ) (alive : String → Bool) (ready : List String) (incoming : Degrees)
      (rank : String → ℕ) (top : ℕ)
      → Inv edges alive ready incoming
      → count (keys edges) alive < fuel
      → ((m x : String)
          → contains m (keys edges) ≡ true
          → contains x (targets_of edges m) ≡ true
          → rank x < rank m)
      → ((x : String) → rank x ≤ top)
      → AllZero edges (reduce edges fuel (queue ready incoming)).incoming
  unfolding reduce
  reduce-AllZero zero alive ready incoming rank top inv le above low x k = absurd (omega arith)
  reduce-AllZero (suc fuel) alive [] incoming rank top inv le above low x k =
      elim (Bool-cases (alive x)) [
        | inl a ↦ absurd (
            none_left alive incoming rank top (suc (top - rank x)) inv above low x k a
              (omega arith))
        | inr a ↦ inv.dead_free x a
      ]
  reduce-AllZero (suc fuel) alive (name ∷ ready) incoming rank top inv le above low x k =
      let after = release (targets_of edges name) (queue ready incoming) in
      reduce-AllZero fuel (kill name alive) after.ready after.incoming rank top
        (release-Inv edges graph alive name ready incoming inv)
        (omega (arith, counted alive name ready incoming inv)) above low x k
