-- ===== src/SchemaCache.antt =====
-- django_graphex/core/permission_signature_cache.py: pruned schemas by permission signature.
pub mod Signature
pub mod Cache
pub mod Entries
pub mod Safety
pub mod Hits
mod Tests
