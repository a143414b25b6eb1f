-- ===== src/Graphql.antt =====
-- The data that the query guards read, and the evaluation of `@skip` and `@include`.
pub mod Ast
pub mod Directives
pub mod Ranked
pub mod Sample
