-- ===== src/Leases/Holding.antt =====
-- A lease among the members of a set, through what the scripts do to them.
use django_graphex.Common.{
  ℕ, ◌≤◌, ◌<◌, ◌≡◌, refl, ◌∙◌, String, Option, none, some, [], ◌∷◌, lookup, arith, if◌then◌else◌,
  Bool-cases, inl, inr, str_eq,
}
use django_graphex.Leases.Redis.{Members, above, erase, is_gone}
use django_graphex.Leases.Members.{lookup-above, lookup-erase, lookup-UpTo}
use django_graphex.Leases.Bounds.{Covered}

-- The token has a lease up to `expiry`, or longer.
abbrev pub HoldsIn : String → ℕ → Members → Type 0
HoldsIn token expiry members = (x : ℕ) × (expiry ≤ x) × (lookup token members ≡ some x)

pub HoldsIn-put :
    (token t : String) (expiry n : ℕ) (ms : Members)
    → expiry ≤ n
    → HoldsIn token expiry ms
    → HoldsIn token expiry ((t, n) ∷ erase t ms)
HoldsIn-put token t expiry n ms le (x, le', e) = elim (Bool-cases (str_eq t token)) [
  | inl same ↦ (n, le, rw same refl)
  | inr other ↦ (x, le', rw other (lookup-erase t token ms other ∙ e))
]

pub HoldsIn-above :
    (token : String) (expiry now : ℕ) (ms : Members)
    → now < expiry
    → HoldsIn token expiry ms
    → HoldsIn token expiry (above now ms)
HoldsIn-above token expiry now ms lt (x, le, e) =
    (x, le, lookup-above now x token ms e (omega arith))

pub HoldsIn-elapse :
    (token : String) (expiry later : ℕ) (ms : Members) (deadline : Option ℕ)
    → Covered ms deadline
    → later < expiry
    → HoldsIn token expiry ms
    → HoldsIn token expiry (if is_gone deadline later then [] else ms)
HoldsIn-elapse token expiry later ms none c lt h = h
HoldsIn-elapse token expiry later ms (some d) c lt (x, le, e) =
    (x, le, ground (arith, lookup-UpTo token d x ms c e))
