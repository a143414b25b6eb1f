-- ===== src/Fragments/Reduction/Indegree.antt =====
-- How degrees change when a name is taken out of the graph.
use django_graphex.Common.{
  ℕ, suc, ◌+◌, ◌≡◌, ◌≢◌, refl, Bool, true, false, ◌&&◌, String, List, [], ◌∷◌, contains, arith,
  str_eq, eq_iff, eq_refl, if◌then◌else◌, Bool-cases, inl, inr,
}
use django_graphex.Fragments.{keys, targets_of}
use django_graphex.Fragments.Spreads.{one_if}
use django_graphex.Fragments.Building.{Edges, indegree, NoRepeat}

abbrev pub kill : String → (String → Bool) → String → Bool
kill name alive x = if str_eq x name then false else alive x

abbrev pub count : List String → (String → Bool) → ℕ
count [] alive = 0
count (name ∷ names) alive = one_if (alive name) + count names alive

module _ (name : String) (alive : String → Bool) where
  count-kill_absent :
      (names : List String)
      → contains name names ≡ false
      → count names (kill name alive) ≡ count names alive
  count-kill_absent [] h = refl
  count-kill_absent (j ∷ names) h = ground (arith, count-kill_absent names, eq_iff j name)

  pub count-kill :
      (names : List String)
      → NoRepeat names
      → contains name names ≡ true
      → alive name ≡ true
      → suc (count names (kill name alive)) ≡ count names alive
  count-kill [] n h a = cc
  count-kill (j ∷ names) n h a =
      ground (arith, count-kill names n.1, count-kill_absent names, eq_iff j name)

  module _ (x : String) where
    indegree-kill_absent :
        (edges : Edges)
        → contains name (keys edges) ≡ false
        → indegree edges (kill name alive) x ≡ indegree edges alive x
    indegree-kill_absent [] h = refl
    indegree-kill_absent ((j, targets) ∷ edges) h =
        ground (arith, indegree-kill_absent edges, eq_iff j name)

    pub indegree-kill :
        (edges : Edges)
        → NoRepeat (keys edges)
        → contains name (keys edges) ≡ true
        → alive name ≡ true
        → indegree edges (kill name alive) x + one_if (contains x (targets_of edges name))
          ≡ indegree edges alive x
    indegree-kill [] n h a = cc
    indegree-kill ((j, targets) ∷ edges) n h a =
        ground (arith, indegree-kill edges n.1, indegree-kill_absent edges, eq_iff j name)

-- Nothing alive, no degree.
pub indegree_dead :
    (edges : Edges) (alive : String → Bool) (x : String)
    → ((m : String) → contains m (keys edges) ≡ true → alive m ≡ false)
    → indegree edges alive x ≡ 0
indegree_dead [] alive x h = refl
indegree_dead ((j, targets) ∷ edges) alive x h =
    ground (arith, h j, eq_refl j, indegree_dead edges alive x (λ m e. h m (ground arith)))

-- A degree above 0 comes from a living name.
pub indegree_source :
    (edges : Edges) (alive : String → Bool) (x : String)
    → NoRepeat (keys edges)
    → indegree edges alive x ≢ 0
    → (m : String) × (contains m (keys edges) ≡ true)
      × (alive m ≡ true)
      × (contains x (targets_of edges m) ≡ true)
indegree_source [] alive x n h = absurd (h refl)
indegree_source ((j, targets) ∷ edges) alive x n h =
    elim (Bool-cases (alive j && contains x targets)) [
      | inl e ↦ (j, ground (arith, eq_refl j), ground arith, ground (arith, eq_refl j))
      | inr e ↦
          let (m, k, a, c) = indegree_source edges alive x n.1 (ground arith) in
          (m, ground arith, a, ground (arith, eq_iff j m))
    ]

pub indegree_pos :
    (edges : Edges) (alive : String → Bool) (m x : String)
    → contains m (keys edges) ≡ true
    → alive m ≡ true
    → contains x (targets_of edges m) ≡ true
    → indegree edges alive x ≢ 0
indegree_pos [] alive m x k a c = cc
indegree_pos ((j, targets) ∷ edges) alive m x k a c =
    ground (arith, indegree_pos edges alive m x, eq_iff j m)
