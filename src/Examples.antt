-- ===== src/Examples.antt =====
-- Runs of the theorems at concrete inputs, on the data of `Examples/Data`.
pub mod Data
pub mod Messages
pub mod Telephony
pub mod Workers
pub mod Metrics
pub mod Security
pub mod Tools
pub mod Payments
pub mod Calls
pub mod Media
pub mod Bridge
