-- ===== src/Depth/Budget.antt =====
-- The tightest budget decides: whether a selection set breaks a constraint depends on the
-- constraints only through the levels that are left.
pub mod Fits
pub mod Agree
