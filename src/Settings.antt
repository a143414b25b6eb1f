-- ===== src/Settings.antt =====
-- django_graphex/settings.py: the reader of the DJANGO_GRAPHEX settings.
pub mod Reader
pub mod Laws
mod Tests
