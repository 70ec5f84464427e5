-- ===== src/HalX86.antt =====
-- lib/hal_x86_64: the page tables of x86_64.
pub mod Entry
pub mod Tables
