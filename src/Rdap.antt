-- ===== src/Rdap.antt =====
-- internal/rdapx: the registries that say which RDAP service answers for a resource.
pub mod Bootstrap
pub mod NetRegistry
pub mod Registry
pub mod Client
mod Tests
