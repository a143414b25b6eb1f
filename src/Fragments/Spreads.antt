-- ===== src/Fragments/Spreads.antt =====
-- The targets that the inner loops collect for a fragment: the known spreads at any depth.
use django_graphex.Common.{
  ℕ, zero, suc, ◌+◌, ◌≤◌, ◌<◌, ◌≡◌, refl, ◌∙◌, Bool, true, false, ◌&&◌, ◌||◌, String, List, [], ◌∷◌,
  contains, arith, str_eq, eq_iff,
}
use django_graphex.Graphql.Ast.{leaf, field, inline, spread, Selections, nil, cons}
use django_graphex.Graphql.Ranked.{spreads}
use django_graphex.Fragments.{Scan, Degrees, refer, scan, gather, sets}

abbrev pub any_spreads : String → List Selections → Bool
any_spreads name [] = false
any_spreads name (s ∷ pending) = spreads name s || any_spreads name pending

-- What a state of the loops will have collected in the end.
abbrev pub collected : List String → String → Scan → Bool
collected known x st = contains x st.targets || (contains x known && any_spreads x st.pending)

abbrev pub one_if : Bool → ℕ
one_if true = 1
one_if false = 0

abbrev pub pending_sets : List Selections → ℕ
pending_sets [] = 0
pending_sets (s ∷ pending) = sets s + pending_sets pending

module _ (known : List String) (x : String) where
  refer-collected :
      (target : String) (st : Scan)
      → collected known x (refer known target st) ≡ (
          contains x st.targets
          || (contains x known && (str_eq target x || any_spreads x st.pending)))
  unfolding refer
  refer-collected target st = ground (arith, eq_iff target x)

  refer-incoming :
      (target : String) (st : Scan)
      → (refer known target st).incoming x + one_if (contains x st.targets)
        ≡ st.incoming x + one_if (contains x (refer known target st).targets)
  unfolding refer
  refer-incoming target st = ground (arith, eq_iff target x, eq_iff x target)

  scan-collected :
      (s : Selections) (st : Scan)
      → collected known x (scan known s st)
        ≡ (contains x st.targets || (contains x known && (spreads x s || any_spreads x st.pending)))
  unfolding scan spreads
  scan-collected nil st = refl
  scan-collected (cons (leaf head) more) st = scan-collected more st
  scan-collected (cons (field head s) more) st =
      ground (arith, scan-collected more (record st { pending = s ∷ st.pending }))
  scan-collected (cons (inline condition directives s) more) st =
      ground (arith, scan-collected more (record st { pending = s ∷ st.pending }))
  scan-collected (cons (spread target directives) more) st =
      ground (arith, scan-collected more (refer known target st), refer-collected target st)

  scan-incoming :
      (s : Selections) (st : Scan)
      → (scan known s st).incoming x + one_if (contains x st.targets)
        ≡ st.incoming x + one_if (contains x (scan known s st).targets)
  unfolding scan
  scan-incoming nil st = refl
  scan-incoming (cons (leaf head) more) st = scan-incoming more st
  scan-incoming (cons (field head s) more) st =
      scan-incoming more (record st { pending = s ∷ st.pending })
  scan-incoming (cons (inline condition directives s) more) st =
      scan-incoming more (record st { pending = s ∷ st.pending })
  scan-incoming (cons (spread target directives) more) st =
      omega (arith, scan-incoming more (refer known target st), refer-incoming target st)

abbrev pub state : List String → Degrees → List Selections → Scan
state targets incoming pending = record {
  targets = targets;
  incoming = incoming;
  pending = pending;
}

refer-pending :
    (known : List String) (target : String) (st : Scan)
    → (refer known target st).pending ≡ st.pending
unfolding refer
refer-pending known target st = ground arith

sets_pos : (s : Selections) → 0 < sets s
unfolding sets
sets_pos nil = omega arith
sets_pos (cons s more) = omega (arith, sets_pos more)

-- The measure of `while pending`.
scan-pending :
    (known : List String) (s : Selections) (st : Scan)
    → suc (pending_sets (scan known s st).pending) ≡ sets s + pending_sets st.pending
unfolding scan refer sets
scan-pending known nil st = omega arith
scan-pending known (cons (leaf head) more) st = ground (arith, scan-pending known more st)
scan-pending known (cons (field head s) more) st =
    omega (arith, scan-pending known more (record st { pending = s ∷ st.pending }))
scan-pending known (cons (inline condition directives s) more) st =
    omega (arith, scan-pending known more (record st { pending = s ∷ st.pending }))
scan-pending known (cons (spread target directives) more) st =
    scan-pending known more (refer known target st)
    ∙ (rw (refer-pending known target st) (omega arith))

module _ (known : List String) (x : String) where
  -- The degrees and the targets of one fragment move together.
  pub gather-incoming :
      (fuel : ℕ) (targets : List String) (incoming : Degrees) (pending : List Selections)
      → (gather known fuel (state targets incoming pending)).incoming x
          + one_if (contains x targets)
        ≡ incoming x
          + one_if (contains x (gather known fuel (state targets incoming pending)).targets)
  unfolding gather
  gather-incoming zero targets incoming pending = refl
  gather-incoming (suc fuel) targets incoming [] = refl
  gather-incoming (suc fuel) targets incoming (s ∷ pending) =
      let st = scan known s (state targets incoming pending) in
      omega (
        arith,
        gather-incoming fuel st.targets st.incoming st.pending,
        scan-incoming known x s (state targets incoming pending),
      )

  -- With a round for each selection set the targets are the known spreads of the pending sets.
  pub gather-targets :
      (fuel : ℕ) (targets : List String) (incoming : Degrees) (pending : List Selections)
      → pending_sets pending ≤ fuel
      → contains x (gather known fuel (state targets incoming pending)).targets
        ≡ (contains x targets || (contains x known && any_spreads x pending))
  unfolding gather
  gather-targets zero targets incoming [] le = ground arith
  gather-targets zero targets incoming (s ∷ pending) le = absurd (omega (arith, sets_pos s))
  gather-targets (suc fuel) targets incoming [] le = ground arith
  gather-targets (suc fuel) targets incoming (s ∷ pending) le =
      let st = scan known s (state targets incoming pending) in
      gather-targets fuel st.targets st.incoming st.pending
        (omega (arith, scan-pending known s (state targets incoming pending)))
      ∙ scan-collected known x s (state targets incoming pending)
