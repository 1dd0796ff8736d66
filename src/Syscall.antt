-- ===== src/Syscall.antt =====
-- kernel/syscall: the handlers of the subsystems modelled, and the dispatcher.
pub mod State
pub mod NewObject
pub mod Pipes
pub mod Channels
pub mod Sync
pub mod Handles
pub mod Dispatch
pub mod Rights
pub mod Open
pub mod Leak
pub mod PipeCalls
pub mod Stale
pub mod Unchecked
pub mod Claims
pub mod Denied
pub mod Escape
