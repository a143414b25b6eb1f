-- ===== src/Security.antt =====
-- django_graphex/security.py: the middlewares that guard fields, and the errors that a client sees.
pub mod Middleware
pub mod Access
pub mod Errors
pub mod Masking
mod Tests
