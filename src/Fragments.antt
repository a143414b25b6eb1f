-- ===== src/Fragments.antt =====
-- django_graphex/_fragment_cycles.py: `find_fragment_cycle`, Kahn's reduction of the graph of
-- fragment references. Dictionaries are association lists, `incoming` a function; the order in
-- which a set is walked is that of its list.
pub mod Spreads
pub mod Building
pub mod Reduction
pub mod Ranks
pub mod Start
pub mod Verdict
mod Tests
use django_graphex.Common.{
  ℕ, zero, suc, ◌+◌, ◌-◌, Bool, true, false, ◌&&◌, ◌||◌, not, String, Option, none, some, List, [],
  ◌∷◌, ◌++◌, map, contains, lookup, length, if◌then◌else◌, str_eq, ◌==◌,
}
use django_graphex.Graphql.Ast.{
  Selection, leaf, field, inline, spread, Selections, nil, cons, Fragment, Definition, operation,
  fragment, type_system,
}

-- `d[k] = v`: a key keeps its place.
abbrev pub put {ℓ} : {V : Type ℓ} → String → V → List (String × V) → List (String × V)
put k v [] = (k, v) ∷ []
put k v ((j, w) ∷ d) = if str_eq j k then (j, v) ∷ d else (j, w) ∷ put k v d

abbrev pub keys {ℓ} : {V : Type ℓ} → List (String × V) → List String
keys [] = []
keys ((k, v) ∷ d) = k ∷ keys d

collect : List Definition → List (String × Fragment) → List (String × Fragment)
collect [] found = found
collect (fragment frag ∷ definitions) found = collect definitions (put frag.name frag found)
collect (operation op ∷ definitions) found = collect definitions found
collect (type_system ∷ definitions) found = collect definitions found

-- The dictionary of the document's fragments.
unfoldable pub fragments_of : List Definition → List (String × Fragment)
unfolding collect
fragments_of definitions = collect definitions []

abbrev pub Degrees : Type 0
Degrees = String → ℕ

abbrev pub update : Degrees → String → ℕ → Degrees
update incoming name n = λ x. if str_eq x name then n else incoming x

-- The state of the inner loops: `edges[name]`, `incoming` and `pending`.
pub record Scan : Type 0 where
  pub targets : List String
  pub incoming : Degrees
  pub pending : List Selections

-- A spread of a fragment that exists and is not a target yet becomes one.
unfoldable pub refer : List String → String → Scan → Scan
refer known target st =
    if contains target known && not (contains target st.targets)
    then record st {
      targets = target ∷ st.targets;
      incoming = update st.incoming target (st.incoming target + 1);
    }
    else st

-- `for selection in selection_set.selections`
unfoldable pub scan : List String → Selections → Scan → Scan
unfolding refer
scan known nil st = st
scan known (cons (spread target directives) more) st = scan known more (refer known target st)
scan known (cons (leaf head) more) st = scan known more st
scan known (cons (field head s) more) st = scan known more (record st { pending = s ∷ st.pending })
scan known (cons (inline condition directives s) more) st =
    scan known more (record st { pending = s ∷ st.pending })

-- `while pending`
unfoldable pub gather : List String → ℕ → Scan → Scan
gather known zero st = st
gather known (suc fuel) st = elim st.pending [
  | [] ↦ st
  | s ∷ pending ↦ gather known fuel (scan known s (record st { pending = pending }))
]

-- The selection sets in a selection set, itself among them: the rounds of `while pending`.
unfoldable mutual
  pub sets : Selections → ℕ
  sets nil = 1
  sets (cons s more) = inner_sets s + sets more

  pub inner_sets : Selection → ℕ
  inner_sets (leaf head) = 0
  inner_sets (field head s) = sets s
  inner_sets (inline condition directives s) = sets s
  inner_sets (spread name directives) = 0

pub record Graph : Type 0 where
  pub edges : List (String × List String)
  pub incoming : Degrees

-- `for name, fragment in fragments.items()`
unfoldable pub build : List String → List (String × Fragment) → Degrees → Graph
unfolding gather scan
build known [] incoming = record { edges = []; incoming = incoming }
build known ((name, frag) ∷ fragments) incoming =
    let st =
      gather known (sets frag.selection_set)
        (record { targets = []; incoming = incoming; pending = frag.selection_set ∷ [] }) in
    let rest = build known fragments st.incoming in
    record { edges = (name, st.targets) ∷ rest.edges; incoming = rest.incoming }

abbrev pub targets_of : List (String × List String) → String → List String
targets_of [] name = []
targets_of ((j, targets) ∷ edges) name = if str_eq j name then targets else targets_of edges name

-- The queue and the degrees while the graph is reduced.
pub record Queue : Type 0 where
  pub ready : List String
  pub incoming : Degrees

-- `for target in edges[...]`
unfoldable pub release : List String → Queue → Queue
release [] q = q
release (target ∷ targets) q =
    let left = q.incoming target - 1 in
    release targets (record {
      ready = if left == 0 then q.ready ++ target ∷ [] else q.ready;
      incoming = update q.incoming target left;
    })

-- `while ready`
unfoldable pub reduce : List (String × List String) → ℕ → Queue → Queue
unfolding release
reduce edges zero q = q
reduce edges (suc fuel) q = elim q.ready [
  | [] ↦ q
  | name ∷ ready ↦ reduce edges fuel (release (targets_of edges name) (record q { ready = ready }))
]

abbrev pub zeros : List String → Degrees → List String
zeros [] incoming = []
zeros (name ∷ names) incoming =
    let rest = zeros names incoming in if incoming name == 0 then name ∷ rest else rest

abbrev pub first_left : List (String × Fragment) → Degrees → Option Fragment
first_left [] incoming = none
first_left ((name, frag) ∷ fragments) incoming =
    if incoming name == 0 then first_left fragments incoming else some frag

-- Each name is queued at most once, so one round for each, and one to see the empty queue.
unfoldable pub find_fragment_cycle : List Definition → Option Fragment
find_fragment_cycle definitions =
    let fragments = fragments_of definitions in
    let graph = build (keys fragments) fragments (λ name. 0) in
    let q =
      reduce graph.edges (suc (length fragments))
        (record { ready = zeros (keys fragments) graph.incoming; incoming = graph.incoming }) in
    first_left fragments q.incoming
