-- ===== src/Websearch.antt =====
-- internal/websearch: the budget of searches, and the collector of a search session.
pub mod Budget
pub mod Slots
pub mod SearchCalls
pub mod Collector
pub mod Settling
pub mod Collecting
pub mod Collected
