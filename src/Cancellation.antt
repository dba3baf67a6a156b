-- ===== src/Cancellation.antt =====
-- The cancellation of a query in its client, src/scopes/internal/QueryCtrlImpl.cpp, and in the scope,
-- QueryObject.cpp and QueryCtrlObject.cpp. A Call is the point that a thread is at; a step takes it
-- past the next critical section or call.
pub mod Client
pub mod Scope
mod Tests
