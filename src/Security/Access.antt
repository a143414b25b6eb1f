-- ===== src/Security/Access.antt =====
-- Which fields a chain of middlewares lets through.
use django_graphex.Common.{
  ◌≡◌, ◌↔◌, ◌⊎◌, inl, inr, Bool, ◌&&◌, Bool-cases, subst, str_eq, if◌then◌else◌, String, Option,
  some, none, eq_iff, sym, refl, true, false, List, [], ◌∷◌, contains, arith,
}
use mathlib.Core.Option.{some-injective, none-ne-some}
use django_graphex.Security.Middleware.{
  Settings, User, Info, Resolved, value, Middleware, disables_introspection, authenticates_fields,
  or_empty, is_introspection, allowed, disable_introspection, get_protected_fields,
  is_authenticated, authenticated_fields, resolve,
}

abbrev pub IsIn : String → List String → Type 0
IsIn name [] = false ≡ true
IsIn name (x ∷ names) = (x ≡ name) ⊎ IsIn name names

-- Who may read the schema: everyone under the one setting, an active superuser under the other.
abbrev pub MayIntrospect : Settings → Option User → Type 0
MayIntrospect settings user =
    (settings.allow_introspection ≡ true)
    ⊎ ((settings.introspection_allow_superuser ≡ true)
        × (u : User) × (user ≡ some u)
        × (u.is_active ≡ true)
        × (u.is_superuser ≡ true))

-- The protected fields: those of the schema's extensions, else those of its legacy attribute, else
-- those of the setting.
pub data AreProtected
    : Option (List String)
      → Option (List String)
      → Option (List String)
      → List String
      → Type 0 where
  by_extensions :
      (names : List String) (legacy setting : Option (List String))
      → AreProtected (some names) legacy setting names
  by_attribute :
      (names : List String) (setting : Option (List String))
      → AreProtected none (some names) setting names
  by_setting : (names : List String) → AreProtected none none (some names) names

abbrev pub IsProtected : Settings → Info → Type 0
IsProtected settings info =
    (names : List String) × AreProtected info.gdx_protected_fields info.gde_protected_fields
      settings.protected_fields names
    × IsIn info.field_name names

abbrev pub IsLoggedIn : Option User → Type 0
IsLoggedIn user = (u : User) × (user ≡ some u) × (u.is_authenticated ≡ true)

-- What one middleware asks of a field.
abbrev pub Passes : Settings → Info → Middleware → Type 0
Passes settings info disables_introspection =
    (info.field_name ≡ "__schema") ⊎ (info.field_name ≡ "__type") → MayIntrospect settings info.user
Passes settings info authenticates_fields =
    info.nested ≡ false → IsProtected settings info → IsLoggedIn info.user

abbrev pub PassesAll : Settings → Info → List Middleware → Type 0
PassesAll settings info [] = Unit
PassesAll settings info (m ∷ chain) = Passes settings info m × PassesAll settings info chain

contains-IsIn :
    (name : String) (names : List String) → (contains name names ≡ true) ↔ IsIn name names
contains-IsIn name [] = (λ e. e, λ e. e)
contains-IsIn name (x ∷ names) =
    let (to, from) = contains-IsIn name names in
    (
      λ e. elim (Bool-cases (str_eq x name)) [
        | inl f ↦ inl ((eq_iff x name).0 f)
        | inr f ↦ inr (to (ground (arith, e, f)))
      ],
      λ i. elim i [ inl f ↦ ground (arith, (eq_iff x name).1 f) | inr f ↦ ground (arith, from f) ],
    )

is_introspection_iff :
    (name : String) → (is_introspection name ≡ true) ↔ ((name ≡ "__schema") ⊎ (name ≡ "__type"))
is_introspection_iff name =
    let (to, from) = contains-IsIn name ("__schema" ∷ "__type" ∷ []) in
    (
      λ e. elim (to e) [
        | inl f ↦ inl (sym f)
        | inr g ↦ (elim g [ inl f ↦ inr (sym f) | inr f ↦ absurd (cc f) ])
      ],
      λ i. from (elim i [ inl f ↦ inl (sym f) | inr f ↦ inr (inl (sym f)) ]),
    )

introspect-cases :
    (allow superuser : Bool) (user : Option User)
    → ((if allow
          then true
          else if superuser
          then elim user [ none ↦ false | some u ↦ u.is_active && u.is_superuser ]
          else false)
        ≡ true)
      ↔ ((allow ≡ true)
          ⊎ ((superuser ≡ true)
              × (u : User) × (user ≡ some u)
              × (u.is_active ≡ true)
              × (u.is_superuser ≡ true)))
introspect-cases true superuser user = (λ e. inl refl, λ i. refl)
introspect-cases false false user = (
  λ e. absurd (cc e),
  λ i. elim i [ inl e ↦ absurd (cc e) | inr (e, u, f, a, b) ↦ absurd (cc e) ],
)
introspect-cases false true none = (
  λ e. absurd (cc e),
  λ i. elim i [ inl e ↦ absurd (cc e) | inr (e, u, f, a, b) ↦ absurd (none-ne-some _ f) ],
)
introspect-cases false true (some u) = (
  λ e. inr (refl, u, refl, ground (arith, e), ground (arith, e)),
  λ i. elim i [
    | inl e ↦ absurd (cc e)
    | inr (e, v, f, a, b) ↦
        subst (λ w. w.is_active && w.is_superuser ≡ true) (sym (some-injective _ _ f))
          (ground (arith, a, b))
  ],
)

allowed-MayIntrospect :
    (settings : Settings) (info : Info)
    → (allowed settings info ≡ true) ↔ MayIntrospect settings info.user
unfolding allowed
allowed-MayIntrospect settings info =
    introspect-cases settings.allow_introspection settings.introspection_allow_superuser info.user

protected-names :
    (gdx gde setting : Option (List String)) (names : List String)
    → AreProtected gdx gde setting names
    → elim gdx [ some xs ↦ xs | none ↦ elim gde [ some xs ↦ xs | none ↦ or_empty setting ] ] ≡ names
protected-names _ _ _ _ (by_extensions names gde setting) = refl
protected-names _ _ _ _ (by_attribute names setting) = refl
protected-names _ _ _ _ (by_setting names) = refl

protected-cases :
    (gdx gde setting : Option (List String)) (name : String)
    → contains name
        (elim gdx [ some xs ↦ xs | none ↦ elim gde [ some xs ↦ xs | none ↦ or_empty setting ] ])
      ≡ true
    → (names : List String) × AreProtected gdx gde setting names × IsIn name names
protected-cases (some xs) gde setting name e =
    (xs, by_extensions xs gde setting, (contains-IsIn name xs).0 e)
protected-cases none (some xs) setting name e =
    (xs, by_attribute xs setting, (contains-IsIn name xs).0 e)
protected-cases none none (some xs) name e = (xs, by_setting xs, (contains-IsIn name xs).0 e)
protected-cases none none none name e = absurd (cc e)

IsProtected-iff :
    (settings : Settings) (info : Info)
    → (contains info.field_name (get_protected_fields settings info) ≡ true)
      ↔ IsProtected settings info
unfolding get_protected_fields
IsProtected-iff settings info = (
  protected-cases info.gdx_protected_fields info.gde_protected_fields settings.protected_fields
      info.field_name,
  λ (names, p, i).
      subst (λ xs. contains info.field_name xs ≡ true) (sym (protected-names _ _ _ names p))
        ((contains-IsIn info.field_name names).1 i),
)

is_authenticated-IsLoggedIn :
    (user : Option User) → (is_authenticated user ≡ true) ↔ IsLoggedIn user
is_authenticated-IsLoggedIn none = (λ e. absurd (cc e), λ (u, f, a). absurd (none-ne-some _ f))
is_authenticated-IsLoggedIn (some u) = (
  λ e. (u, refl, e),
  λ (v, f, a). subst (λ w. w.is_authenticated ≡ true) (sym (some-injective _ _ f)) a,
)

module _ {V : Type 0} (settings : Settings) (info : Info) where
  disable_introspection-cases :
      (next : Resolved V) (v : V)
      → (disable_introspection settings info next ≡ value v)
        ↔ (Passes settings info disables_introspection × (next ≡ value v))
  unfolding disable_introspection
  disable_introspection-cases next v =
      let (is, si) = is_introspection_iff info.field_name in
      let (may, grant) = allowed-MayIntrospect settings info in
      (
        λ e. (λ i. may (ground (arith, si i, e)), ground arith),
        λ (p, e). elim (Bool-cases (is_introspection info.field_name)) [
          | inl f ↦ ground (arith, grant (p (is f)), f, e)
          | inr f ↦ ground (arith, f, e)
        ],
      )

  authenticated_fields-cases :
      (next : Resolved V) (v : V)
      → (authenticated_fields settings info next ≡ value v)
        ↔ (Passes settings info authenticates_fields × (next ≡ value v))
  unfolding authenticated_fields
  authenticated_fields-cases next v =
      let (is, si) = IsProtected-iff settings info in
      let (known, knows) = is_authenticated-IsLoggedIn info.user in
      let protected : Bool = contains info.field_name (get_protected_fields settings info) in
      (
        λ e. (λ n c. known (ground (arith, n, si c, e)), ground (arith, e)),
        λ (p, e). elim (Bool-cases info.nested) [
          | inl f ↦ ground (arith, f, e)
          | inr f ↦ (elim (Bool-cases protected) [
            | inl g ↦ ground (arith, f, g, knows (p f (is g)), e)
            | inr g ↦ ground (arith, f, g, e)
          ])
        ],
      )

-- A field is resolved behind a chain of middlewares exactly when every one of them lets it through:
-- `__schema` and `__type` only where the settings allow everyone to read the schema, or allow it to
-- superusers and the user is an active one; a top-level field that is protected by the schema's
-- extensions, by its legacy attribute or by the setting, whichever is the first that is given, only
-- for an authenticated user.
pub resolve-value_iff :
    {V : Type 0} (settings : Settings) (info : Info) (chain : List Middleware) (v : V)
    → (resolve settings info chain v ≡ value v) ↔ PassesAll settings info chain
unfolding resolve
resolve-value_iff settings info [] v = (λ e. tt, λ p. refl)
resolve-value_iff settings info (disables_introspection ∷ chain) v =
    let (to, from) = resolve-value_iff settings info chain v in
    let (out, back) = disable_introspection-cases settings info (resolve settings info chain v) v in
    (λ e. ((out e).0, to (out e).1), λ p. back (p.0, from p.1))
resolve-value_iff settings info (authenticates_fields ∷ chain) v =
    let (to, from) = resolve-value_iff settings info chain v in
    let (out, back) = authenticated_fields-cases settings info (resolve settings info chain v) v in
    (λ e. ((out e).0, to (out e).1), λ p. back (p.0, from p.1))
