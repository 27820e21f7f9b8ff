-- ===== src/Tests.antt =====
-- The theorems at concrete inputs.
pub mod Data
pub mod Strings
pub mod Slots
pub mod Calls
pub mod Files
pub mod Mappings
pub mod Machine
pub mod Runs
pub mod Deaths
pub mod Android
