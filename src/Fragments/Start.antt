-- ===== src/Fragments/Start.antt =====
-- The fragments' dictionary, and the state in which `while ready` starts and ends.
use django_graphex.Common.{
  suc, ◌<◌, ◌≡◌, refl, ap, true, ◌&&◌, ◌||◌, String, List, [], ◌∷◌, none, some, contains, lookup,
  length, arith, str_eq, eq_iff, eq_refl, ◌==◌, inl, inr, Bool-cases,
}
use django_graphex.Graphql.Ast.{Fragment, Definition, operation, fragment, type_system}
use django_graphex.Fragments.{
  Degrees, Graph, put, keys, fragments_of, build, gather, sets, targets_of, zeros, first_left,
  collect,
}
use django_graphex.Fragments.Spreads.{state, gather-targets}
use django_graphex.Fragments.Building.{
  Edges, NoRepeat, EachNoRepeat, build-NoRepeat, keys-build, incoming-build,
}
use django_graphex.Fragments.Reduction.Indegree.{count}
use django_graphex.Fragments.Reduction.Invariant.{IsGraph, Inv}

contains-put {ℓ} :
    {V : Type ℓ} (x k : String) (v : V) (d : List (String × V))
    → contains x (keys (put k v d)) ≡ (contains x (keys d) || str_eq k x)
contains-put x k v [] = ground arith
contains-put x k v ((j, w) ∷ d) = ground (arith, contains-put x k v d, eq_iff j k)

NoRepeat-put {ℓ} :
    {V : Type ℓ} (k : String) (v : V) (d : List (String × V))
    → NoRepeat (keys d)
    → NoRepeat (keys (put k v d))
NoRepeat-put k v [] h = (refl, tt)
NoRepeat-put k v ((j, w) ∷ d) h =
    ground (arith, NoRepeat-put k v d h.1, contains-put j k v d, eq_iff j k, eq_iff k j)

NoRepeat-collect :
    (definitions : List Definition) (found : List (String × Fragment))
    → NoRepeat (keys found)
    → NoRepeat (keys (collect definitions found))
unfolding collect
NoRepeat-collect [] found h = h
NoRepeat-collect (fragment frag ∷ definitions) found h =
    NoRepeat-collect definitions (put frag.name frag found) (NoRepeat-put frag.name frag found h)
NoRepeat-collect (operation op ∷ definitions) found h = NoRepeat-collect definitions found h
NoRepeat-collect (type_system ∷ definitions) found h = NoRepeat-collect definitions found h

contains-zeros :
    (x : String) (names : List String) (incoming : Degrees)
    → contains x (zeros names incoming) ≡ (contains x names && (incoming x == 0))
contains-zeros x [] incoming = refl
contains-zeros x (j ∷ names) incoming =
    ground (arith, contains-zeros x names incoming, eq_iff j x, ap incoming {x = j} {y = x})

NoRepeat-zeros :
    (names : List String) (incoming : Degrees) → NoRepeat names → NoRepeat (zeros names incoming)
NoRepeat-zeros [] incoming h = tt
NoRepeat-zeros (j ∷ names) incoming h =
    ground (arith, NoRepeat-zeros names incoming h.1, contains-zeros j names incoming)

pub first_left-none :
    (fragments : List (String × Fragment)) (incoming : Degrees) (x : String)
    → first_left fragments incoming ≡ none
    → contains x (keys fragments) ≡ true
    → incoming x ≡ 0
first_left-none [] incoming x e k = cc
first_left-none ((j, frag) ∷ fragments) incoming x e k =
    ground (arith, first_left-none fragments incoming x, eq_iff j x, ap incoming {x = j} {y = x})

pub first_left_zero :
    (fragments : List (String × Fragment)) (incoming : Degrees)
    → ((x : String) → contains x (keys fragments) ≡ true → incoming x ≡ 0)
    → first_left fragments incoming ≡ none
first_left_zero [] incoming h = refl
first_left_zero ((j, frag) ∷ fragments) incoming h =
    ground (arith, h j, eq_refl j, first_left_zero fragments incoming (λ x k. h x (ground arith)))

pub count_all {ℓ} : {V : Type ℓ} (d : List (String × V)) → count (keys d) (λ x. true) ≡ length d
count_all [] = refl
count_all ((j, v) ∷ d) = omega (arith, count_all d)

targets_once :
    (edges : Edges) (name : String) → EachNoRepeat edges → NoRepeat (targets_of edges name)
targets_once [] name h = tt
targets_once ((j, targets) ∷ edges) name h = ground (arith, targets_once edges name h.1)

targets_known :
    (known : List String) (name x : String) (fragments : List (String × Fragment))
    (incoming : Degrees)
    → contains x (targets_of (build known fragments incoming).edges name) ≡ true
    → contains x known ≡ true
unfolding build
targets_known known name x [] incoming e = cc
targets_known known name x ((j, first) ∷ fragments) incoming e = ground (
  arith,
  gather-targets known x (sets first.selection_set) [] incoming (first.selection_set ∷ []),
  targets_known known name x fragments
      (gather known (sets first.selection_set)
        (state [] incoming (first.selection_set ∷ []))).incoming,
)

pub lookup-keys {ℓ} :
    {V : Type ℓ} (x : String) (d : List (String × V))
    → contains x (keys d) ≡ true
    → (v : V) × (lookup x d ≡ some v)
lookup-keys x [] k = cc
lookup-keys x ((j, v) ∷ d) k = elim (Bool-cases (str_eq j x)) [
  | inl e ↦ (v, rw e)
  | inr e ↦ let (w, p) = lookup-keys x d (ground arith) in (w, rw e p)
]

pub keys-lookup {ℓ} :
    {V : Type ℓ} (x : String) (d : List (String × V)) (v : V)
    → lookup x d ≡ some v
    → contains x (keys d) ≡ true
keys-lookup x [] v e = cc
keys-lookup x ((j, w) ∷ d) v e = ground (arith, keys-lookup x d v)

module _ (definitions : List Definition) where
  abbrev pub fragments : List (String × Fragment)
  fragments = fragments_of definitions

  abbrev pub graph : Graph
  graph = build (keys fragments) fragments (λ name. 0)

  pub keys_once : NoRepeat (keys fragments)
  unfolding fragments_of
  keys_once = NoRepeat-collect definitions [] tt

  pub graph_keys : keys graph.edges ≡ keys fragments
  graph_keys = keys-build (keys fragments) fragments (λ name. 0)

  pub build-IsGraph : IsGraph graph.edges
  build-IsGraph = record {
    keys_once = rw graph_keys keys_once;
    targets_once = λ name.
        targets_once graph.edges name (build-NoRepeat (keys fragments) fragments (λ name'. 0));
    closed =
        λ name x e. rw graph_keys (targets_known (keys fragments) name x fragments (λ name'. 0) e);
  }

  pub start-Inv :
      Inv graph.edges (λ name. true) (zeros (keys fragments) graph.incoming) graph.incoming
  start-Inv = record {
    degree = λ x. omega (arith, incoming-build (keys fragments) x fragments (λ name. 0));
    ready_zero = λ x e. ground (arith, contains-zeros x (keys fragments) graph.incoming);
    ready_alive = λ x e. refl;
    ready_known =
        λ x e. rw graph_keys (ground (arith, contains-zeros x (keys fragments) graph.incoming));
    zero_ready =
        λ x k a z. ground (arith, contains-zeros x (keys fragments) graph.incoming, graph_keys);
    dead_free = λ x a. cc;
    once = NoRepeat-zeros (keys fragments) graph.incoming keys_once;
  }

  pub enough_rounds : count (keys graph.edges) (λ name. true) < suc (length fragments)
  enough_rounds = rw graph_keys (omega (arith, count_all fragments))
