-- ===== src/Stats.antt =====
-- The bus statistics: src/ow_stats.c.
pub mod Context
pub mod Rows
pub mod Dump
mod Tests
