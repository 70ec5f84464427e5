-- ===== src/Mulch.antt =====
-- lib/mulch: the utilities that the kernel and its libraries share.
pub mod Math
pub mod Ranges
pub mod Bitmap
