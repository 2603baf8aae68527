-- ===== src/Auth/Tests.antt =====
-- internal/auth: the theorems at concrete inputs.
mod Codec
mod Sessions
mod Tokens
mod Codes
mod Servers
mod Admin
