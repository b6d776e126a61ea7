-- ===== src/Oauth.antt =====
-- The OAuth server: scopes, clients, grants and tokens.
pub mod Implicants
pub mod Scopes
pub mod Clients
pub mod Grant
pub mod Codes
pub mod Renewal
pub mod Tokens
pub mod Authorization
