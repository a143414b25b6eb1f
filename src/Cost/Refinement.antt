-- ===== src/Cost/Refinement.antt =====
-- The walk of cost.py against the formula of its header.
pub mod Assumptions
pub mod Levels
pub mod Fuel
pub mod Result
pub mod SampleTypes
