-- ===== src/Permissions.antt =====
-- django_graphex/permissions.py and django_graphex/core/perm_labels.py: the permission classes, and
-- the labels of the fields that a schema is pruned by.
pub mod Kwargs
pub mod Policies
pub mod Labels
pub mod Narrowing
pub mod Holding
pub mod Codes
pub mod Verdicts
mod Tests
