-- ===== src/Resolve.antt =====
-- internal/resolve: the lookup of a domain, and its raw payloads.
mod Tests
pub mod Ttl
pub mod Query
pub mod Lookup
pub mod Availability
pub mod Raw
