-- ===== src/Tests.antt =====
-- Concrete states, and each theorem applied to one of them.
pub mod Fixtures
pub mod Ipc
pub mod Kernel
pub mod Mm
pub mod Cow
pub mod Handles
pub mod Strings
pub mod Sync
pub mod Leak
pub mod Bignum
pub mod Heap
pub mod Tmpfs
pub mod Services
