-- ===== src/Hal.antt =====
-- lib/hal/src/memory: physical and virtual addresses, frames, pages and page flags.
-- An address is its `usize` value. A `+` or `-` that leaves the range of `usize` panics, as it does
-- under overflow checks.
pub mod Arch
pub mod Usize
pub mod PAddr
pub mod VAddr
pub mod Flags
pub mod Page
pub mod PageTable
pub mod Frame
mod Examples
