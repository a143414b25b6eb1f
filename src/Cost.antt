-- ===== src/Cost.antt =====
-- django_graphex/cost.py: the estimated cost of an operation.
pub mod Weights
pub mod Analyzer
pub mod Formula
pub mod Refinement
pub mod Report
pub mod Tests
