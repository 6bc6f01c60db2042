-- ===== src/Auth.antt =====
-- app/auth: the keys of the issuer and the verification of a token.
pub mod Jwks
pub mod Verifier
