-- ===== src/Cost/Refinement/Levels.antt =====
-- A level of the walk, from its first selection to its last: the walk adds the formula's cost to
-- the level's total, leaves the levels around it alone, and keeps the memo table true.
pub mod Steps
pub mod Selection
pub mod Whole
