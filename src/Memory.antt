-- ===== src/Memory.antt =====
-- The memory routines of kernel/common.c over a byte-addressed memory.
mod Blocks
mod Strings
unfoldable pub use Blocks.*
unfoldable pub use Strings.*
