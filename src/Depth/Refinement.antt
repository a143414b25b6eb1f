-- ===== src/Depth/Refinement.antt =====
-- The walk of the depth rule finds the reference's first violation.
pub mod Outcome
pub mod Stable
pub mod Selection
pub mod Whole
pub mod Result
