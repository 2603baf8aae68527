-- ===== src/Whois.antt =====
-- internal/whois: the WHOIS path.
pub mod Client
pub mod Parsers
pub mod Transport
pub mod Quirks
pub mod Discover
pub mod Query
mod Tests
