-- ===== src/Tools.antt =====
-- The tools of `apps/api/tools/`: the registry, the dispatch that masks latency, and the tools themselves.
pub mod Registry
pub mod Dispatch
pub mod CrmRequests
pub mod Crm
pub mod Booking
pub mod ServiceArea
pub mod PaymentTexts
pub mod Payment
pub mod Transfer
