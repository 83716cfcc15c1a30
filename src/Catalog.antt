-- ===== src/Catalog.antt =====
-- internal/catalog: the cache of the models, and its readers.
pub mod Cache
pub mod Readers
pub mod Flights
pub mod Running
pub mod Serving
pub mod Waiting
pub mod Models
pub mod Identifiers
