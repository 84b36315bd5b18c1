-- ===== src/Propeller/Auth.antt =====
-- approach-2/src/auth/mod.rs: bearer tokens, signatures, claims and the two ways to authenticate.
pub mod Bearer
pub mod Claims
pub mod Signature
pub mod Jwt
pub mod Service
mod Tests
