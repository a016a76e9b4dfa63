-- ===== src/Domain.antt =====
-- The pure rules of `apps/api/domain/`: per-call state, business hours, escalation and
-- qualification.
pub mod State
pub mod Hours
pub mod Escalation
pub mod Qualification
