-- ===== src/Cursor.antt =====
-- django_graphex/paginations/pagination.py, CursorGraphqlPagination: the cursor's text, the rows
-- behind a cursor, and the in-memory pages.
pub mod Codec
pub mod RoundTrip
pub mod Keyset
pub mod Order
pub mod Pages
pub mod Resume
pub mod Reading
mod Tests
