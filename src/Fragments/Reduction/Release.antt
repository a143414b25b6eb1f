-- ===== src/Fragments/Reduction/Release.antt =====
-- `for target in edges[...]`, seen at one name.
use mathlib.Core.List.{List}
use django_graphex.Common.{
  ◌-◌, ◌≡◌, refl, true, false, ◌&&◌, ◌||◌, String, [], ◌∷◌, ◌++◌, contains, arith, str_eq, eq_iff,
  eq_refl, if◌then◌else◌, ◌==◌,
}
use django_graphex.Fragments.{Queue, Degrees, release}
use django_graphex.Fragments.Spreads.{one_if}
use django_graphex.Fragments.Building.{NoRepeat}

pub contains-append :
    (x : String) (l : List String) (t : String)
    → contains x (l ++ t ∷ []) ≡ (contains x l || str_eq t x)
contains-append x [] t = ground arith
contains-append x (a ∷ l) t = ground (arith, contains-append x l t)

NoRepeat-append :
    (l : List String) (t : String) → NoRepeat l → contains t l ≡ false → NoRepeat (l ++ t ∷ [])
NoRepeat-append [] t h n = (refl, tt)
NoRepeat-append (a ∷ l) t h n = (
  ground (arith, contains-append a l t, eq_iff t a, eq_iff a t),
  NoRepeat-append l t h.1 (ground arith),
)

abbrev pub queue : List String → Degrees → Queue
queue ready incoming = record { ready = ready; incoming = incoming }

abbrev after : String → Queue → Queue
after t q = record {
  ready = if (q.incoming t - 1) == 0 then q.ready ++ t ∷ [] else q.ready;
  incoming = λ x. if str_eq x t then q.incoming t - 1 else q.incoming x;
}

pub release-incoming :
    (x : String) (targets : List String) (q : Queue)
    → NoRepeat targets
    → (release targets q).incoming x ≡ q.incoming x - one_if (contains x targets)
unfolding release
release-incoming x [] q h = omega arith
release-incoming x (t ∷ targets) q h =
    ground (arith, release-incoming x targets (after t q) h.1, eq_iff x t, eq_iff t x)

pub release-ready :
    (x : String) (targets : List String) (q : Queue)
    → NoRepeat targets
    → contains x (release targets q).ready
      ≡ (contains x q.ready || (contains x targets && ((q.incoming x - 1) == 0)))
unfolding release
release-ready x [] q h = ground arith
release-ready x (t ∷ targets) q h = ground (
  arith,
  release-ready x targets (after t q) h.1,
  contains-append x q.ready t,
  eq_iff x t,
  eq_iff t x,
)

pub release-NoRepeat :
    (targets : List String) (q : Queue)
    → NoRepeat targets
    → NoRepeat q.ready
    → ((x : String) → contains x targets ≡ true → contains x q.ready ≡ false)
    → NoRepeat (release targets q).ready
unfolding release
release-NoRepeat [] q h r new = r
release-NoRepeat (t ∷ targets) q h r new =
    release-NoRepeat targets (after t q) h.1
      (ground (arith, NoRepeat-append q.ready t r, new t, eq_refl t))
      (λ x e. ground (arith, new x, contains-append x q.ready t, eq_iff t x, h.0))
