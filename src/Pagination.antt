-- ===== src/Pagination.antt =====
-- django_graphex/paginations: page sizes, pages and the window slices that stand for them.
pub mod Size
pub mod Source
pub mod Paginators
pub mod Slices
pub mod Terms
pub mod Heads
pub mod Allowlist
pub mod Inmemory
pub mod Queryset
pub mod Plain
pub mod Lexicographic
pub mod Determined
pub mod Provenance
pub mod Laws
mod Tests
