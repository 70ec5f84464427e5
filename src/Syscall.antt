-- ===== src/Syscall.antt =====
-- lib/poplar/src/syscall: the library that userspace calls, and the kernel with it.
pub mod Repr
