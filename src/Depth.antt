-- ===== src/Depth.antt =====
-- django_graphex/validation.py: the depth limit.
pub mod Limits
pub mod Walker
pub mod Rule
pub mod Reference
pub mod Budget
pub mod Refinement
mod Tests
