-- ===== src/StrConv.antt =====
-- django_graphex/_strconv.py: names between camelCase and snake_case, as lists of code points.
-- GraphQL names are ASCII, so `[A-Z]`, `\d` and `lower()` are read on ASCII.
pub mod Snake
unfoldable pub use Snake.{to_snake_case, codes}
pub mod Words
mod Tests
