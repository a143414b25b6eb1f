-- ===== src/Permissions/Narrowing.antt =====
-- What narrowing keeps, and that a narrowed call binds.
use django_graphex.Common.{
  Bool, true, false, not, inl, inr, ◌&&◌, ◌||◌, ◌≡◌, refl, sym, ◌∙◌, ap, ap₂, String, Option, none,
  some, List, [], ◌∷◌, str_eq, eq_iff, eq_refl, contains, lookup, is_some, if◌then◌else◌,
  Bool-cases, Option-cases, arith,
}
use django_graphex.Permissions.Kwargs.{
  Value, Kwargs, Kind, positional_only, positional_or_keyword, var_positional, keyword_only,
  var_keyword, Parameter, add_named, named_kwargs, keep, supported_kwargs, is_keyword,
  is_var_keyword, accepts, positionals, signature, is_given, are_given, are_accepted,
}
use django_graphex.Permissions.Policies.{Info, Model, verdict, Policy, has_action_permission}

-- Whether a name is among the names found, where none stands for every name.
abbrev among : Option (List String) → String → Bool
among none name = true
among (some names) name = contains name names

among-add_named :
    (kind : Kind) (own name : String) (names : Option (List String))
    → among (add_named kind own names) name
      ≡ (is_var_keyword kind || (is_keyword kind && str_eq own name) || among names name)
among-add_named var_keyword own name names = refl
among-add_named positional_or_keyword own name none = ground arith
among-add_named positional_or_keyword own name (some names) = ground arith
among-add_named keyword_only own name none = ground arith
among-add_named keyword_only own name (some names) = ground arith
among-add_named positional_only own name none = refl
among-add_named positional_only own name (some names) = refl
among-add_named var_positional own name none = refl
among-add_named var_positional own name (some names) = refl

among-named_kwargs :
    (parameters : List Parameter) (name : String)
    → among (named_kwargs parameters) name ≡ accepts parameters name
unfolding named_kwargs
among-named_kwargs [] name = refl
among-named_kwargs (p ∷ parameters) name = ground (
  arith,
  among-add_named p.kind p.name name (named_kwargs parameters),
  among-named_kwargs parameters name,
)

lookup-keep :
    (accepted : List String) (kwargs : Kwargs) (name : String)
    → lookup name (keep accepted kwargs)
      ≡ (if contains name accepted then lookup name kwargs else none)
lookup-keep accepted [] name = ground arith
lookup-keep accepted ((n, value) ∷ kwargs) name = elim (Bool-cases (str_eq n name)) [
  | inl e ↦
      let same : n ≡ name = (eq_iff n name).0 e in
      ground (arith, e, same, lookup-keep accepted kwargs name)
  | inr e ↦ ground (arith, e, lookup-keep accepted kwargs name)
]

-- Narrowing keeps what the callable accepts, and drops what it does not.
lookup-supported_kwargs :
    (parameters : List Parameter) (kwargs : Kwargs) (name : String)
    → accepts parameters name ≡ true
    → lookup name (supported_kwargs parameters kwargs) ≡ lookup name kwargs
unfolding supported_kwargs
lookup-supported_kwargs parameters kwargs name a = elim (Option-cases (named_kwargs parameters)) [
  | inl e ↦ ground (arith, e)
  | inr (names, e) ↦
      ground (arith, e, a, among-named_kwargs parameters name, lookup-keep names kwargs name)
]

-- No keyword names one of the arguments that are given by position.
abbrev pub avoids_positionals : Kwargs → Bool
avoids_positionals [] = true
avoids_positionals ((name, value) ∷ kwargs) =
    not (contains name positionals) && avoids_positionals kwargs

accepts-signature :
    (extras : List Parameter) (name : String)
    → contains name positionals ≡ false
    → accepts (signature extras) name ≡ accepts extras name
accepts-signature extras name e = ground arith

are_accepted-keep :
    (extras : List Parameter) (accepted : List String) (kwargs : Kwargs)
    → ((name : String) → contains name accepted ≡ accepts (signature extras) name)
    → avoids_positionals kwargs ≡ true
    → are_accepted extras (keep accepted kwargs) ≡ true
are_accepted-keep extras accepted [] h a = refl
are_accepted-keep extras accepted ((n, value) ∷ kwargs) h a =
    elim (Bool-cases (contains n positionals)) [
      | inl e ↦ absurd (ground (arith, a, e))
      | inr e ↦
          let rest = are_accepted-keep extras accepted kwargs h (ground (arith, a, e)) in
          ground (arith, e, rest, h n, accepts-signature extras n e)
    ]

are_accepted-all :
    (extras : List Parameter) (kwargs : Kwargs)
    → ((name : String) → accepts (signature extras) name ≡ true)
    → avoids_positionals kwargs ≡ true
    → are_accepted extras kwargs ≡ true
are_accepted-all extras [] h a = refl
are_accepted-all extras ((n, value) ∷ kwargs) h a = elim (Bool-cases (contains n positionals)) [
  | inl e ↦ absurd (ground (arith, a, e))
  | inr e ↦
      let rest = are_accepted-all extras kwargs h (ground (arith, a, e)) in
      ground (arith, e, rest, h n, accepts-signature extras n e)
]

supported_kwargs-accepted :
    (extras : List Parameter) (kwargs : Kwargs)
    → avoids_positionals kwargs ≡ true
    → are_accepted extras (supported_kwargs (signature extras) kwargs) ≡ true
unfolding supported_kwargs
supported_kwargs-accepted extras kwargs a = elim (Option-cases (named_kwargs (signature extras))) [
  | inl e ↦
      let h : (name : String) → accepts (signature extras) name ≡ true = λ name.
        sym (among-named_kwargs (signature extras) name)
        ∙ ap (λ (o : Option (List String)). among o name) e in
      ground (arith, e, are_accepted-all extras kwargs h a)
  | inr (names, e) ↦
      let h : (name : String) → contains name names ≡ accepts (signature extras) name = λ name.
        sym (ap (λ (o : Option (List String)). among o name) e)
        ∙ among-named_kwargs (signature extras) name in
      ground (arith, e, are_accepted-keep extras names kwargs h a)
]

given :
    (kind : Kind) (has_default : Bool) (before after : Option Value)
    → (is_keyword kind ≡ true → after ≡ before)
    → is_given kind has_default (is_some after) ≡ is_given kind has_default (is_some before)
given var_keyword has_default before after h = refl
given var_positional has_default before after h = refl
given positional_only has_default before after h = refl
given positional_or_keyword has_default before after h = rw (h refl) refl
given keyword_only has_default before after h = rw (h refl) refl

-- The parameters that need a value keep it.
are_given-supported :
    (parameters ps : List Parameter) (kwargs : Kwargs)
    → ((name : String) → accepts ps name ≡ true → accepts parameters name ≡ true)
    → are_given ps (supported_kwargs parameters kwargs) ≡ are_given ps kwargs
are_given-supported parameters [] kwargs h = refl
are_given-supported parameters (p ∷ ps) kwargs h =
    let rest = are_given-supported parameters ps kwargs (λ name a. h name (ground (arith, a))) in
    let found : is_keyword p.kind ≡ true
        → lookup p.name (supported_kwargs parameters kwargs) ≡ lookup p.name kwargs =
      λ k.
        lookup-supported_kwargs parameters kwargs p.name
          (h p.name (ground (arith, k, eq_refl p.name))) in
    ap₂ (λ (x y : Bool). x && y)
      (given p.kind p.has_default (lookup p.name kwargs)
        (lookup p.name (supported_kwargs parameters kwargs)) found)
      rest

-- A check that is called for an action with extra keywords: where none of them names an argument
-- that is given by position, and the check's own parameters have defaults or are among them, the
-- call binds, and its verdict is the check's on the keywords that it accepts, each with its value.
pub has_action_permission-verdict :
    (policy : Policy) (action : String) (info : Info) (model : Option Model) (kwargs : Kwargs)
    → avoids_positionals kwargs ≡ true
    → are_given policy.extras kwargs ≡ true
    → let narrowed = supported_kwargs (signature policy.extras) kwargs in
      (has_action_permission policy action info model kwargs
        ≡ verdict (policy.has_permission info action model narrowed))
      × ((name : String)
          → accepts policy.extras name ≡ true
          → lookup name narrowed ≡ lookup name kwargs)
unfolding has_action_permission
has_action_permission-verdict policy action info model kwargs a g =
    let extras = policy.extras in
    let wider : (name : String)
        → accepts extras name ≡ true
        → accepts (signature extras) name ≡ true =
      λ name h. ground (arith, h) in
    (
      ground (
        arith,
        g,
        supported_kwargs-accepted extras kwargs a,
        are_given-supported (signature extras) extras kwargs wider,
      ),
      λ name h. lookup-supported_kwargs (signature extras) kwargs name (wider name h),
    )
