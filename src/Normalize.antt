-- ===== src/Normalize.antt =====
-- internal/normalize: the canonical report, and its making from the answers of the two protocols.
mod Tests
pub mod Epp
pub mod Report
pub mod FromWhois
pub mod FromRdap
