-- ===== src/Security.antt =====
-- kernel/security: sandbox policies, accounts, and the arithmetic below the cryptography.
pub mod Sandbox
pub mod Bignum
pub mod Users
