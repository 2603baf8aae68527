-- ===== src/Auth.antt =====
-- internal/auth: the authorization server's stores, tokens and policies, one child module for each
-- file of the package.
pub mod Session
pub mod Keyring
pub mod Token
pub mod Denylist
pub mod Code
pub mod Enrollment
pub mod Scopes
pub mod ScopeGate
pub mod Server
mod Tests
