-- ===== src/Leases/Members.antt =====
-- Members of a lease set: how many are live, and up to when.
use django_graphex.Common.{
  ℕ, suc, ◌≤◌, ◌<◌, ◌≡◌, refl, String, false, some, [], ◌∷◌, lookup, length, ltb, str_eq, eq_iff,
  arith, if◌then◌else◌,
}
use django_graphex.Leases.Redis.{Members, above, erase}

-- The members that have not expired.
abbrev pub live : ℕ → Members → ℕ
live now [] = 0
live now ((token, expiry) ∷ members) =
    let rest = live now members in if ltb now expiry then suc rest else rest

pub length-above : (now : ℕ) (members : Members) → length (above now members) ≡ live now members
length-above now [] = refl
length-above now (m ∷ members) = ground (arith, length-above now members)

pub live-above : (now : ℕ) (members : Members) → live now (above now members) ≡ live now members
live-above now [] = refl
live-above now (m ∷ members) = ground (arith, live-above now members)

pub live-erase :
    (now : ℕ) (t : String) (members : Members) → live now (erase t members) ≤ live now members
live-erase now t [] = omega arith
live-erase now t (m ∷ members) = ground (arith, live-erase now t members)

-- A live member that is erased is one less.
pub live-erase_member :
    (now expiry : ℕ) (t : String) (members : Members)
    → lookup t members ≡ some expiry
    → now < expiry
    → live now (erase t members) < live now members
live-erase_member now expiry t [] e lt = cc e
live-erase_member now expiry t (m ∷ members) e lt =
    ground (arith, live-erase now t members, live-erase_member now expiry t members)

pub live-later :
    (now later : ℕ) (members : Members) → now ≤ later → live later members ≤ live now members
live-later now later [] le = omega arith
live-later now later (m ∷ members) le = ground (arith, live-later now later members le)

-- No member lives longer than this.
abbrev pub UpTo : ℕ → Members → Type 0
UpTo bound [] = Unit
UpTo bound ((token, expiry) ∷ members) = (expiry ≤ bound) × UpTo bound members

pub UpTo-above :
    (now bound : ℕ) (members : Members) → UpTo bound members → UpTo bound (above now members)
UpTo-above now bound [] u = tt
UpTo-above now bound (m ∷ members) u = ground (arith, UpTo-above now bound members)

pub UpTo-erase :
    (t : String) (bound : ℕ) (members : Members) → UpTo bound members → UpTo bound (erase t members)
UpTo-erase t bound [] u = tt
UpTo-erase t bound (m ∷ members) u = ground (arith, UpTo-erase t bound members)

pub UpTo-le : (a b : ℕ) (members : Members) → a ≤ b → UpTo a members → UpTo b members
UpTo-le a b [] le u = tt
UpTo-le a b (m ∷ members) le u = (omega arith, UpTo-le a b members le u.1)

pub lookup-above :
    (now expiry : ℕ) (t : String) (members : Members)
    → lookup t members ≡ some expiry
    → now < expiry
    → lookup t (above now members) ≡ some expiry
lookup-above now expiry t [] e lt = cc e
lookup-above now expiry t (m ∷ members) e lt = ground (arith, lookup-above now expiry t members)

pub lookup-erase :
    (t u : String) (members : Members)
    → str_eq t u ≡ false
    → lookup u (erase t members) ≡ lookup u members
lookup-erase t u [] ne = refl
lookup-erase t u (m ∷ members) ne =
    ground (arith, lookup-erase t u members ne, eq_iff m.0 t, eq_iff m.0 u)

pub lookup-UpTo :
    (t : String) (bound expiry : ℕ) (members : Members)
    → UpTo bound members
    → lookup t members ≡ some expiry
    → expiry ≤ bound
lookup-UpTo t bound expiry [] u e = cc e
lookup-UpTo t bound expiry (m ∷ members) u e =
    ground (arith, lookup-UpTo t bound expiry members u.1)
