-- ===== src/Session.antt =====
-- internal/session: the bindings of the manager, and the continuation of a suspended prompt
-- by the client's tool results.
pub mod Continuation
pub mod Standing
pub mod ResultIds
pub mod Manager
pub mod Starts
pub mod Bindings
pub mod Users
pub mod Taking
pub mod Passing
pub mod Events
pub mod Exclusion
