-- ===== src/Graphql/Ast.antt =====
-- The parsed documents and the compiled schema that the query guards walk: graphql-core's AST
-- nodes and type objects, with the attributes that django_graphex reads.
use django_graphex.Common.{String, Bool, true, false, Option, none, some, List, ℤ, pos}

-- A run-time value: a coerced variable or an attribute of a `Meta` class. Floats are left out.
pub data Value : Type 0 where
  null : Value
  bool : Bool → Value
  int : ℤ → Value
  text : String → Value

-- The value node of an argument or of a variable's default.
pub data ValueNode : Type 0 where
  int_value : ℤ → ValueNode
  variable : String → ValueNode
  bool_value : Bool → ValueNode
  other_value : ValueNode

pub record Argument : Type 0 where
  pub name : String
  pub value : ValueNode

pub record Directive : Type 0 where
  pub name : String
  pub arguments : List Argument

-- A FieldNode but for its selection set.
pub record FieldHead : Type 0 where
  pub name : String
  pub arguments : List Argument
  pub directives : List Directive

-- `leaf` is a FieldNode whose selection set is None, `field` one that has a selection set.
mutual
  pub data Selection : Type 0 where
    leaf : FieldHead → Selection
    field : FieldHead → Selections → Selection
    inline : Option String → List Directive → Selections → Selection
    spread : String → List Directive → Selection

  pub data Selections : Type 0 where
    nil : Selections
    cons : Selection → Selections → Selections

pub record Fragment : Type 0 where
  pub name : String
  pub type_condition : String
  pub selection_set : Selections

pub data OperationType : Type 0 where
  query mutation subscription : OperationType

pub record Operation : Type 0 where
  pub name : Option String
  pub operation : OperationType
  pub variable_definitions : List (String × Option ValueNode)
  pub selection_set : Selections

pub data Definition : Type 0 where
  operation : Operation → Definition
  fragment : Fragment → Definition
  type_system : Definition

-- A field's output type, up to its named type.
pub data TypeRef : Type 0 where
  named : String → TypeRef
  list_of : TypeRef → TypeRef
  non_null : TypeRef → TypeRef

pub record FieldDef : Type 0 where
  pub type : TypeRef

-- The `_meta` view of the library's source class behind a compiled type.
pub record Meta : Type 0 where
  pub complexity : Option Value
  pub max_depth : Option Value
  pub results_field_name : Option String

-- A named type: its fields (none for a type without any) and its metadata, which is read
-- directly (`graphene_type`) or from the extensions (`gdx`).
pub record NamedType : Type 0 where
  pub name : String
  pub fields : List (String × FieldDef)
  pub graphene_type : Option Meta
  pub extensions_gdx : Option Meta

pub record Schema : Type 0 where
  pub query_type : Option NamedType
  pub mutation_type : Option NamedType
  pub subscription_type : Option NamedType
  pub get_type : String → Option NamedType

abbrev pub Variables : Type 0
Variables = List (String × Value)

-- What graphql-core's `get_directive_values` does for one directive: it raises GraphQLError, finds
-- no such directive, or returns the arguments, here the value of `if`.
pub data DirectiveValues : Type 0 where
  raises : DirectiveValues
  absent : DirectiveValues
  values : Option Value → DirectiveValues

-- The functions of graphql-core and of Python that the walkers call.
pub record Runtime : Type 0 where
  pub get_directive_values : String → List Directive → Variables → DirectiveValues
  pub get_named_type : TypeRef → NamedType
  pub int_of_text : String → Option ℤ

-- `_gdx_meta`: the direct back-reference first, then the extensions; AttributeError is none.
unfoldable pub gdx_meta : NamedType → Option Meta
gdx_meta t = elim t.graphene_type [ some meta ↦ some meta | none ↦ t.extensions_gdx ]

-- `int(value)`, where TypeError and ValueError are none.
unfoldable pub int_of : Runtime → Value → Option ℤ
int_of rt null = none
int_of rt (bool true) = some (pos 1)
int_of rt (bool false) = some (pos 0)
int_of rt (int z) = some z
int_of rt (text s) = rt.int_of_text s

-- The type that a type condition names, else the type at hand.
unfoldable pub type_or : Schema → String → NamedType → NamedType
type_or schema name t = elim (schema.get_type name) [ some s ↦ s | none ↦ t ]

-- The root type that an operation starts from.
unfoldable pub root_type : Schema → OperationType → Option NamedType
root_type schema query = schema.query_type
root_type schema mutation = schema.mutation_type
root_type schema subscription = schema.subscription_type
