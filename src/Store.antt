-- ===== src/Store.antt =====
-- `apps/api/db/repository.py` on the tables of `apps/api/db/models.py`. A statement is a function on
-- the store.
mod Tables
mod Calls
mod Messages
pub mod Writes
pub mod Keys
pub mod Consent
pub mod Rows
pub use Tables.*
unfoldable pub use Calls.*
unfoldable pub use Messages.*
