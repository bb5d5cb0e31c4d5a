-- ===== src/Ds18b20.antt =====
-- The DS18B20 driver: src/ds18b20.c and its modules.
pub mod Context
pub mod Samples
pub mod Resolution
pub mod Txn
pub mod Search
pub mod Measure
pub mod Calls
pub mod Invariant
pub mod Safety
pub mod Request
pub mod Round
pub mod Progress
pub mod Command
pub mod Temperature
mod Tests
