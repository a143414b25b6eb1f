-- ===== src/Leases.antt =====
-- django_graphex/subscriptions/transports/_sse_lease.py: the leases that bound an account's SSE
-- streams.
pub mod Redis
pub mod Scripts
pub mod Members
pub mod Bounds
pub mod Safety
pub mod Holding
pub mod Ownership
pub mod Client
mod Tests
