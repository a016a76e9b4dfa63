-- ===== src/Telephony.antt =====
-- The telephony modules of `apps/api/telephony/`.
pub mod Sms
pub mod Status
pub mod Recording
pub mod Xml
pub mod Twiml
