-- ===== src/Settings/Laws.antt =====
-- What a reader hands out is accepted, and a reload forgets what was kept.
use django_graphex.Common.{
  ◌≡◌, refl, ap, true, String, Option, none, some, List, [], ◌∷◌, lookup, eq_iff, arith, is_some,
  Bool-cases, Option-cases, inl, inr,
}
use django_graphex.Settings.Reader.{
  Value, Result, ok, Namespace, Reader, is_accepted, user_of, imported, checked, missing, get_attr,
  without, reload,
}

abbrev pub AllAccepted : List (String × Value) → Type 0
AllAccepted [] = Unit
AllAccepted ((attr, value) ∷ kept) = (is_accepted attr value ≡ true) × AllAccepted kept

-- What a reading gives, and what is kept behind it.
abbrev Accepts : String → Result × Reader → Type 0
Accepts attr (result, reader) =
    ((v : Value) → result ≡ ok v → is_accepted attr v ≡ true) × AllAccepted reader.kept

lookup-accepted :
    (attr : String) (kept : List (String × Value)) (v : Value)
    → AllAccepted kept
    → lookup attr kept ≡ some v
    → is_accepted attr v ≡ true
lookup-accepted attr [] v a e = absurd (cc e)
lookup-accepted attr ((k, w) ∷ kept) v a e =
    ground (arith, eq_iff k attr, lookup-accepted attr kept v a.1, a.0)

the_value :
    (attr : String) (a b : Value)
    → ok a ≡ ok b
    → is_accepted attr a ≡ true
    → is_accepted attr b ≡ true
the_value attr a b p e = cc (p, e)

checked-Accepts :
    (attr : String) (value : Value) (reader : Reader)
    → AllAccepted reader.kept
    → Accepts attr (checked attr value reader)
unfolding checked
checked-Accepts attr value reader a = elim (Bool-cases (is_accepted attr value)) [
  | inl e ↦ rw (e, checked) (λ v p. the_value attr value v p e, (e, a))
  | inr e ↦ rw (e, checked) (λ v p. absurd (cc p), a)
]

missing-Accepts :
    (namespace : Namespace) (attr : String) (reader : Reader) (django : List (String × Value))
    (default : Option Value)
    → AllAccepted reader.kept
    → Accepts attr (missing namespace attr reader django default)
unfolding missing
missing-Accepts namespace attr reader django none a = (λ v p. absurd (cc p), a)
missing-Accepts namespace attr reader django (some default) a =
    elim (Option-cases (lookup attr (user_of reader django))) [
      | inl e ↦ rw (e, missing) (checked-Accepts attr (imported namespace attr default) _ a)
      | inr (value, e) ↦ rw (e, missing) (checked-Accepts attr (imported namespace attr value) _ a)
    ]

get_attr-Accepts :
    (namespace : Namespace) (attr : String) (django : List (String × Value)) (reader : Reader)
    → AllAccepted reader.kept
    → Accepts attr (get_attr namespace attr django reader)
unfolding get_attr
get_attr-Accepts namespace attr django reader a = elim (Option-cases (lookup attr reader.kept)) [
  | inl e ↦
      rw (e, get_attr)
        (missing-Accepts namespace attr reader django (lookup attr namespace.defaults) a)
  | inr (value, e) ↦
      rw (e, get_attr)
        (λ v p. the_value attr value v p (lookup-accepted attr reader.kept value a e), a)
]

without-accepted :
    (defaults kept : List (String × Value)) → AllAccepted kept → AllAccepted (without defaults kept)
unfolding without
without-accepted defaults [] a = tt
without-accepted defaults ((attr, value) ∷ kept) a =
    elim (Bool-cases (is_some (lookup attr defaults))) [
      | inl e ↦ rw e (without-accepted defaults kept a.1)
      | inr e ↦ rw e (a.0, without-accepted defaults kept a.1)
    ]

-- What a process does with its reader: readings, while Django's settings change, and reloads.
pub data Event : Type 0 where
  reads : String → List (String × Value) → Event
  reloads : Event

unfoldable pub after : Namespace → List Event → Reader → Reader
after namespace [] reader = reader
after namespace (Event.reads attr django ∷ events) reader =
    after namespace events (get_attr namespace attr django reader).1
after namespace (Event.reloads ∷ events) reader = after namespace events (reload namespace reader)

abbrev pub fresh : Reader
fresh = record { kept = []; user_settings = none }

after-accepted :
    (namespace : Namespace) (events : List Event) (reader : Reader)
    → AllAccepted reader.kept
    → AllAccepted (after namespace events reader).kept
unfolding after reload
after-accepted namespace [] reader a = a
after-accepted namespace (Event.reads attr django ∷ events) reader a =
    after-accepted namespace events _ (get_attr-Accepts namespace attr django reader a).1
after-accepted namespace (Event.reloads ∷ events) reader a =
    after-accepted namespace events _ (without-accepted namespace.defaults reader.kept a)

-- Whatever was read and reloaded before: a setting that is handed out passes every check for its
-- key.
pub get_attr-accepted :
    (namespace : Namespace) (events : List Event) (attr : String) (django : List (String × Value))
    (v : Value)
    → (get_attr namespace attr django (after namespace events fresh)).0 ≡ ok v
    → is_accepted attr v ≡ true
get_attr-accepted namespace events attr django v e =
    (get_attr-Accepts namespace attr django (after namespace events fresh)
        (after-accepted namespace events fresh tt)).0
      v e

lookup-without :
    (attr : String) (defaults kept : List (String × Value)) (d : Value)
    → lookup attr defaults ≡ some d
    → lookup attr (without defaults kept) ≡ none
unfolding without
lookup-without attr defaults [] d e = refl
lookup-without attr defaults ((k, v) ∷ kept) d e = ground (
  arith,
  eq_iff k attr,
  lookup-without attr defaults kept d e,
  ap (λ (a : String). lookup a defaults) {x = k} {y = attr},
)

-- What is handed out does not depend on what else is kept.
checked-result :
    (attr : String) (value : Value) (r r' : Reader)
    → (checked attr value r).0 ≡ (checked attr value r').0
unfolding checked
checked-result attr value r r' = elim (Bool-cases (is_accepted attr value)) [
  | inl e ↦ rw (e, checked) refl
  | inr e ↦ rw (e, checked) refl
]

missing-result :
    (namespace : Namespace) (attr : String) (django kept : List (String × Value)) (d : Value)
    → (missing namespace attr (record { kept = kept; user_settings = none }) django (some d)).0
      ≡ (missing namespace attr fresh django (some d)).0
unfolding missing user_of
missing-result namespace attr django kept d = elim (Option-cases (lookup attr django)) [
  | inl e ↦ rw (e, missing, user_of) (checked-result attr (imported namespace attr d) _ _)
  | inr (v, e) ↦ rw (e, missing, user_of) (checked-result attr (imported namespace attr v) _ _)
]

-- After a reload, a setting that has a default is read as by a new reader, whatever was kept.
pub get_attr-reload :
    (namespace : Namespace) (attr : String) (django : List (String × Value)) (reader : Reader)
    (d : Value)
    → lookup attr namespace.defaults ≡ some d
    → (get_attr namespace attr django (reload namespace reader)).0
      ≡ (get_attr namespace attr django fresh).0
unfolding get_attr reload
get_attr-reload namespace attr django reader d e =
    rw (lookup-without attr namespace.defaults reader.kept d e, e, get_attr)
      (missing-result namespace attr django (without namespace.defaults reader.kept) d)
