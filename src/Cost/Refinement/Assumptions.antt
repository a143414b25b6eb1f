-- ===== src/Cost/Refinement/Assumptions.antt =====
-- What the walk relies on: how graphql-core's schema names its types, that no fragment refers to
-- itself, and a memo table of true costs.
use django_graphex.Common.{
  ℕ, ◌≤◌, ◌<◌, ◌≡◌, String, false, some, List, [], ◌∷◌, lookup, contains, arith, ap, eq_iff,
  eq_refl, refl, Option, none, Option-cases, inl, inr, ◌∙◌,
}
use django_graphex.Graphql.Ast.{
  OperationType, FieldDef, NamedType, Schema, Runtime, root_type, type_or,
}
use django_graphex.Cost.Analyzer.{Memo, recall, discard, inline_type}
use django_graphex.Cost.Formula.{Spreads}

-- The type stands in the schema's type map, under its name.
abbrev pub Known : Schema → NamedType → Type 0
Known schema t = schema.get_type t.name ≡ some t

-- graphql-core's type map: it holds a type under the type's own name, and with a type the types of
-- its fields; the root types are in it.
pub record TypeMap (rt : Runtime) (schema : Schema) : Type 0 where
  pub by_name : (name : String) (t : NamedType) → schema.get_type name ≡ some t → t.name ≡ name
  pub with_fields :
      (t : NamedType) (name : String) (d : FieldDef)
      → Known schema t
      → lookup name t.fields ≡ some d
      → Known schema (rt.get_named_type d.type)
  pub with_roots :
      (op : OperationType) (t : NamedType) → root_type schema op ≡ some t → Known schema t

pub Known-eq :
    (schema : Schema) (t u : NamedType) → Known schema t → Known schema u → t.name ≡ u.name → t ≡ u
Known-eq schema t u kt ku e = cc (ap schema.get_type e)

-- The type of a level stays in the type map.
pub Known-type_or :
    (rt : Runtime) (schema : Schema) (name : String) (t : NamedType)
    → TypeMap rt schema
    → Known schema t
    → Known schema (type_or schema name t)
unfolding type_or
Known-type_or rt schema name t types kt = elim (Option-cases (schema.get_type name)) [
  | inl e ↦ rw (e, type_or) kt
  | inr (u, e) ↦ rw (e, type_or) (ap schema.get_type (types.by_name name u e) ∙ e)
]

pub Known-inline_type :
    (rt : Runtime) (schema : Schema) (condition : Option String) (t : NamedType)
    → TypeMap rt schema
    → Known schema t
    → Known schema (inline_type schema condition t)
Known-inline_type rt schema none t types kt = kt
Known-inline_type rt schema (some name) t types kt = Known-type_or rt schema name t types kt

-- The fragments that are open have rank `k` or more.
abbrev pub OpenFrom : (String → ℕ) → ℕ → List String → Type 0
OpenFrom rank k [] = Unit
OpenFrom rank k (name ∷ active) = (k ≤ rank name) × OpenFrom rank k active

pub OpenFrom-le :
    (rank : String → ℕ) (j k : ℕ) (active : List String)
    → j ≤ k
    → OpenFrom rank k active
    → OpenFrom rank j active
OpenFrom-le rank j k [] le h = tt
OpenFrom-le rank j k (name ∷ active) le h = (omega arith, OpenFrom-le rank j k active le h.1)

-- The cycle guard lets a spread of lower rank through.
pub contains-OpenFrom :
    (rank : String → ℕ) (k : ℕ) (name : String) (active : List String)
    → OpenFrom rank k active
    → rank name < k
    → contains name active ≡ false
contains-OpenFrom rank k name [] h lt = refl
contains-OpenFrom rank k name (a ∷ active) h lt =
    ground (arith, eq_iff a name, contains-OpenFrom rank k name active, ap rank)

pub discard-absent :
    (name : String) (active : List String)
    → contains name active ≡ false
    → discard name active ≡ active
discard-absent name [] h = refl
discard-absent name (a ∷ active) h = ground (arith, discard-absent name active)

pub discard-cons :
    (name : String) (active : List String)
    → contains name active ≡ false
    → discard name (name ∷ active) ≡ active
discard-cons name active h = rw eq_refl (discard-absent name active h)

-- The memoized costs are the formula's.
pub record IsTrue (schema : Schema) (spread_value : Spreads) (memo : Memo) : Type 0 where
  pub at_key :
      (name : String) (t : NamedType) (cost : ℕ)
      → Known schema t
      → recall (name, t.name) memo ≡ some cost
      → cost ≡ spread_value name t

pub IsTrue-nil : (schema : Schema) (spread_value : Spreads) → IsTrue schema spread_value []
IsTrue-nil schema f = record { at_key = λ name t cost k e. cc e }

pub IsTrue-cons :
    (schema : Schema) (f : Spreads) (memo : Memo) (name : String) (t : NamedType) (cost : ℕ)
    → Known schema t
    → cost ≡ f name t
    → IsTrue schema f memo
    → IsTrue schema f (((name, t.name), cost) ∷ memo)
IsTrue-cons schema f memo name t cost kt e h = record {
  at_key = λ n u c ku r. ground (
    arith,
    eq_iff name n,
    eq_iff t.name u.name,
    h.at_key n u c ku,
    Known-eq schema t u kt ku,
    ap (f name) {x = t} {y = u},
  );
}
