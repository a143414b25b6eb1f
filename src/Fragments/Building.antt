-- ===== src/Fragments/Building.antt =====
-- The graph that the outer loop builds: its edges are the known spreads of each fragment, each
-- once, and a name's degree counts the fragments that spread it.
use django_graphex.Common.{
  ℕ, zero, suc, ◌+◌, ◌≡◌, refl, ap, Bool, true, false, ◌&&◌, String, List, [], ◌∷◌, some, contains,
  lookup, arith,
}
use django_graphex.Graphql.Ast.{leaf, field, inline, spread, Selections, nil, cons, Fragment}
use django_graphex.Graphql.Ranked.{spreads}
use django_graphex.Fragments.{Scan, Degrees, refer, scan, gather, sets, build, keys, targets_of}
use django_graphex.Fragments.Spreads.{one_if, state, gather-incoming, gather-targets}

abbrev pub Edges : Type 0
Edges = List (String × List String)

-- How many of the names that are `alive` have an edge to `x`.
abbrev pub indegree : Edges → (String → Bool) → String → ℕ
indegree [] alive x = 0
indegree ((name, targets) ∷ edges) alive x =
    one_if (alive name && contains x targets) + indegree edges alive x

abbrev pub NoRepeat : List String → Type 0
NoRepeat [] = Unit
NoRepeat (x ∷ xs) = (contains x xs ≡ false) × NoRepeat xs

abbrev pub EachNoRepeat : Edges → Type 0
EachNoRepeat [] = Unit
EachNoRepeat ((name, targets) ∷ edges) = NoRepeat targets × EachNoRepeat edges

refer-NoRepeat :
    (known : List String) (target : String) (st : Scan)
    → NoRepeat st.targets
    → NoRepeat (refer known target st).targets
unfolding refer
refer-NoRepeat known target st h = ground arith

scan-NoRepeat :
    (known : List String) (s : Selections) (st : Scan)
    → NoRepeat st.targets
    → NoRepeat (scan known s st).targets
unfolding scan
scan-NoRepeat known nil st h = h
scan-NoRepeat known (cons (leaf head) more) st h = scan-NoRepeat known more st h
scan-NoRepeat known (cons (field head s) more) st h =
    scan-NoRepeat known more (record st { pending = s ∷ st.pending }) h
scan-NoRepeat known (cons (inline condition directives s) more) st h =
    scan-NoRepeat known more (record st { pending = s ∷ st.pending }) h
scan-NoRepeat known (cons (spread target directives) more) st h =
    scan-NoRepeat known more (refer known target st) (refer-NoRepeat known target st h)

gather-NoRepeat :
    (known : List String) (fuel : ℕ) (targets : List String) (incoming : Degrees)
    (pending : List Selections)
    → NoRepeat targets
    → NoRepeat (gather known fuel (state targets incoming pending)).targets
unfolding gather
gather-NoRepeat known zero targets incoming pending h = h
gather-NoRepeat known (suc fuel) targets incoming [] h = h
gather-NoRepeat known (suc fuel) targets incoming (s ∷ pending) h =
    let st = scan known s (state targets incoming pending) in
    gather-NoRepeat known fuel st.targets st.incoming st.pending
      (scan-NoRepeat known s (state targets incoming pending) h)

pub build-NoRepeat :
    (known : List String) (fragments : List (String × Fragment)) (incoming : Degrees)
    → EachNoRepeat (build known fragments incoming).edges
unfolding build
build-NoRepeat known [] incoming = tt
build-NoRepeat known ((name, frag) ∷ fragments) incoming = (
  gather-NoRepeat known (sets frag.selection_set) [] incoming (frag.selection_set ∷ []) tt,
  build-NoRepeat known fragments
      (gather known (sets frag.selection_set)
        (state [] incoming (frag.selection_set ∷ []))).incoming,
)

pub keys-build :
    (known : List String) (fragments : List (String × Fragment)) (incoming : Degrees)
    → keys (build known fragments incoming).edges ≡ keys fragments
unfolding build
keys-build known [] incoming = refl
keys-build known ((name, frag) ∷ fragments) incoming =
    ap (λ (ks : List String). name ∷ ks) (keys-build known fragments _)

pub targets-build :
    (known : List String) (x name : String) (fragments : List (String × Fragment))
    (incoming : Degrees) (frag : Fragment)
    → lookup name fragments ≡ some frag
    → contains x (targets_of (build known fragments incoming).edges name)
      ≡ (contains x known && spreads x frag.selection_set)
unfolding build
targets-build known x name [] incoming frag e = cc
targets-build known x name ((j, first) ∷ fragments) incoming frag e = ground (
  arith,
  gather-targets known x (sets first.selection_set) [] incoming (first.selection_set ∷ []),
  targets-build known x name fragments
      (gather known (sets first.selection_set)
        (state [] incoming (first.selection_set ∷ []))).incoming
      frag,
)

pub incoming-build :
    (known : List String) (x : String) (fragments : List (String × Fragment)) (incoming : Degrees)
    → (build known fragments incoming).incoming x
      ≡ incoming x + indegree (build known fragments incoming).edges (λ name. true) x
unfolding build
incoming-build known x [] incoming = omega arith
incoming-build known x ((name, frag) ∷ fragments) incoming =
    let st = gather known (sets frag.selection_set) (state [] incoming (frag.selection_set ∷ [])) in
    omega (
      arith,
      gather-incoming known x (sets frag.selection_set) [] incoming (frag.selection_set ∷ []),
      incoming-build known x fragments st.incoming,
    )
