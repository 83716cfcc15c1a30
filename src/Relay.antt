-- ===== src/Relay.antt =====
-- internal/relay/broker.go: the relay that suspends tool calls until the client returns results.
pub mod Content
pub mod State
pub mod Calls
pub mod Batches
pub mod Answers
pub mod Invariant
pub mod Once
pub mod Resolution
pub mod Failure
pub mod Sealing
pub mod Identifiers
