-- ===== src/Socket.antt =====
-- django_graphex/subscriptions/transports/ws.py: one websocket connection that speaks
-- graphql-transport-ws, and transports/__init__.py: how an operation is started.
pub mod Json
pub mod Startup
pub mod State
pub mod Teardown
pub mod Handlers
pub mod Steps
pub mod Registry
pub mod Definitions
pub mod Good
pub mod Invariant
pub mod Tasks
pub mod Runs
pub mod Safety
pub mod Moves
pub mod Relation
pub mod Quiet
pub mod Closing
pub mod Admission
pub mod Isolation
pub mod Starting
mod Tests
