-- ===== src/Config.antt =====
-- The client configuration of `apps/api/config/schema.py`: one record for each pydantic model,
-- the field validators of `Config/Valid` and the registry of `Config/Loader`. The type of floats
-- is a parameter `F`; the literal types of the YAML are data types.
mod Schema
pub mod Valid
pub mod Loader
pub use Schema.*
