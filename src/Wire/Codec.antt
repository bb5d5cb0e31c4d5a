-- ===== src/Wire/Codec.antt =====
-- What the pulse tables of Wire hold: a message, one byte after another, lowest bit first. The
-- in-place decode of `decode_scratchpad` reads every pulse before it is overwritten.
mod Bytes
mod Tables
mod Overlay
mod Prefix
pub use Bytes.*
pub use Tables.*
pub use Overlay.*
pub use Prefix.{prefix, length-prefix, encode_prefix, encode_prefix-IsBuilt, encode_prefix_count}
