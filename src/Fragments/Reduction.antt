-- ===== src/Fragments/Reduction.antt =====
-- The rounds of `while ready`: what holds between two of them.
pub mod Release
pub mod Indegree
pub mod Invariant
