-- ===== src/Security.antt =====
-- The security modules of `apps/api/security/`.
pub mod Redaction
