-- ===== src/Fragments/Reduction/Invariant.antt =====
-- The invariant of `while ready`, for the names that have not been taken from the queue (`alive`).
use django_graphex.Common.{
  ◌+◌, ◌-◌, ◌≡◌, Bool, true, false, ◌&&◌, ◌||◌, String, List, ◌∷◌, contains, arith, str_eq, eq_iff,
  eq_refl, ◌==◌,
}
use django_graphex.Fragments.{Queue, Degrees, release, keys, targets_of}
use django_graphex.Fragments.Spreads.{one_if}
use django_graphex.Fragments.Building.{Edges, indegree, NoRepeat}
use django_graphex.Fragments.Reduction.Release.{
  queue, release-incoming, release-ready, release-NoRepeat,
}
use django_graphex.Fragments.Reduction.Indegree.{kill, indegree-kill}

-- A graph as `build` leaves it: one entry for each name, each target once and a name itself.
pub record IsGraph (edges : Edges) : Type 0 where
  pub keys_once : NoRepeat (keys edges)
  pub targets_once : (name : String) → NoRepeat (targets_of edges name)
  pub closed :
      (name x : String) → contains x (targets_of edges name) ≡ true → contains x (keys edges) ≡ true

pub record Inv (edges : Edges) (alive : String → Bool) (ready : List String) (incoming : Degrees)
    : Type 0 where
  pub degree : (x : String) → incoming x ≡ indegree edges alive x
  pub ready_zero : (x : String) → contains x ready ≡ true → incoming x ≡ 0
  pub ready_alive : (x : String) → contains x ready ≡ true → alive x ≡ true
  pub ready_known : (x : String) → contains x ready ≡ true → contains x (keys edges) ≡ true
  pub zero_ready :
      (x : String)
      → contains x (keys edges) ≡ true
      → alive x ≡ true
      → incoming x ≡ 0
      → contains x ready ≡ true
  pub dead_free : (x : String) → alive x ≡ false → incoming x ≡ 0
  pub once : NoRepeat ready

module _ (edges : Edges) (graph : IsGraph edges) (alive : String → Bool) (name : String)
    (ready : List String) (incoming : Degrees) (inv : Inv edges alive (name ∷ ready) incoming) where
  abbrev targets : List String
  targets = targets_of edges name

  abbrev released : Queue
  released = release targets (queue ready incoming)

  degree_at :
      (x : String) → incoming x ≡ indegree edges (kill name alive) x + one_if (contains x targets)
  degree_at x = ground (
    arith,
    inv.degree x,
    indegree-kill name alive x edges graph.keys_once
        (inv.ready_known name (ground (arith, eq_refl name)))
        (inv.ready_alive name (ground (arith, eq_refl name))),
  )

  name_zero : incoming name ≡ 0
  name_zero = inv.ready_zero name (ground (arith, eq_refl name))

  incoming_at : (x : String) → released.incoming x ≡ incoming x - one_if (contains x targets)
  incoming_at x = release-incoming x targets (queue ready incoming) (graph.targets_once name)

  ready_at :
      (x : String)
      → contains x released.ready
        ≡ (contains x ready || (contains x targets && ((incoming x - 1) == 0)))
  ready_at x = release-ready x targets (queue ready incoming) (graph.targets_once name)

  not_again : (x : String) → contains x ready ≡ true → str_eq x name ≡ false
  not_again x e = ground (arith, inv.once.0, eq_iff x name)

  -- A round keeps the invariant, for one name less.
  pub release-Inv : Inv edges (kill name alive) released.ready released.incoming
  release-Inv = record {
    degree = λ x. ground (arith, incoming_at x, degree_at x);
    ready_zero = λ x e. ground (arith, incoming_at x, ready_at x, inv.ready_zero x);
    ready_alive = λ x e. ground (
      arith,
      ready_at x,
      not_again x,
      inv.ready_alive x,
      degree_at x,
      inv.dead_free x,
      name_zero,
      eq_iff x name,
    );
    ready_known = λ x e. ground (arith, ready_at x, inv.ready_known x, graph.closed name x);
    zero_ready = λ x k a z. ground (
      arith,
      incoming_at x,
      ready_at x,
      degree_at x,
      inv.zero_ready x,
      eq_iff name x,
      eq_iff x name,
    );
    dead_free = λ x a. ground (arith, incoming_at x, inv.dead_free x, name_zero, eq_iff x name);
    once =
        release-NoRepeat targets (queue ready incoming) (graph.targets_once name) inv.once.1
          (λ x e. ground (arith, degree_at x, inv.ready_zero x));
  }
