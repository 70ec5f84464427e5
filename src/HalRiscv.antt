-- ===== src/HalRiscv.antt =====
-- lib/hal_riscv: the page tables of RISC-V.
pub mod Entry
pub mod Tables
