-- ===== src/Ipc.antt =====
-- proc/ipc: kernel objects, handles and the primitives behind them.
pub mod Object
pub mod Pipe
pub mod Channel
pub mod Sync
pub mod SharedMemory
