-- ===== src/Ds2431.antt =====
-- The DS2431 driver: src/ds2431.c, src/ds2431_txn.c and src/ds2431_internal.h.
pub mod Context
pub mod Samples
pub mod Txn
pub mod Memory
pub mod Integrity
pub mod Progress
pub mod Command
mod Tests
