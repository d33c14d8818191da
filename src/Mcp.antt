-- ===== src/Mcp.antt =====
-- internal/mcp: the transport, its access tokens, and what the server offers.
pub mod Oauth
pub mod Issuer
pub mod Transport
pub mod Server
pub mod Resources
pub mod Session
