-- ===== src/Media.antt =====
-- The media plane of `apps/api/media/`: playback ledger, barge-in, budget guard, queue, client and bridge.
pub mod Ledger
pub mod BargeIn
pub mod Budget
pub mod Outbound
pub mod Realtime
pub mod Bridge
