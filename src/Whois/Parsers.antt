-- ===== src/Whois/Parsers.antt =====
-- internal/whois/parsers: the classification and the parse of a WHOIS response.
pub mod Labels
pub mod Templates
pub mod Classify
pub mod Lines
pub mod Fields
pub mod Dates
pub mod Contacts
pub mod Report
mod Tests
