-- ===== src/Kernel.antt =====
-- kernel/src: the platform-independent part of the kernel.
pub mod Buddy
pub mod Pmm
pub mod Task
pub mod Handles
pub mod Channel
pub mod Message
pub mod Waiting
pub mod Scheduler
pub mod MemoryObject
pub mod Vmm
