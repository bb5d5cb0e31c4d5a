-- ===== src/Wire/Check.antt =====
-- What the two check sums of Wire detect.
mod Crc8
mod Crc16
pub use Crc8.*
pub use Crc16.*
