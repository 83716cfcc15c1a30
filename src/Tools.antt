-- ===== src/Tools.antt =====
-- internal/toolregistry and internal/schemawire: the declarations of a client's tools, and their aliases.
pub mod Schema
pub mod Bounded
pub mod Aliases
pub mod Growth
pub mod Declarations
pub mod Registry
pub mod Lookup
