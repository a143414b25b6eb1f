-- ===== src/Cost/Refinement/SampleTypes.antt =====
-- The sample schema's type map holds what the walk relies on.
use django_graphex.Common.{◌≡◌, refl, String, some, none, lookup, arith, eq_iff, Option, ap, ◌∙◌}
use django_graphex.Graphql.Ast.{
  OperationType, query, mutation, subscription, TypeRef, named, list_of, non_null, NamedType,
  root_type,
}
use django_graphex.Graphql.Sample.{schema, runtime, types, named_type, or_string}
use django_graphex.Cost.Refinement.Assumptions.{TypeMap, Known}

by_name : (name : String) (t : NamedType) → lookup name types ≡ some t → t.name ≡ name
by_name name t e =
    ground
      (arith, eq_iff "Query" name, eq_iff "UserPage" name, eq_iff "User" name, eq_iff "String" name)

known : (name : String) (t : NamedType) → lookup name types ≡ some t → Known schema t
known name t e = ap (λ (n : String). lookup n types) (by_name name t e) ∙ e

or_string-Known :
    (o : Option NamedType)
    → ((t : NamedType) → o ≡ some t → Known schema t)
    → Known schema (or_string o)
or_string-Known none h = refl
or_string-Known (some t) h = h t refl

named_type-Known : (t : TypeRef) → Known schema (named_type t)
named_type-Known (named name) = or_string-Known (lookup name types) (known name)
named_type-Known (list_of t) = named_type-Known t
named_type-Known (non_null t) = named_type-Known t

root_known : (o : OperationType) (t : NamedType) → root_type schema o ≡ some t → Known schema t
unfolding root_type
root_known query t e = cc
root_known mutation t e = cc
root_known subscription t e = cc

pub sample_types : TypeMap runtime schema
sample_types = record {
  by_name = by_name;
  with_fields = λ t name d k e. named_type-Known d.type;
  with_roots = root_known;
}
