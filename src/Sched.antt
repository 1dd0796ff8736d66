-- ===== src/Sched.antt =====
-- kernel/sched: the task table and the round-robin scheduler.
pub mod Yield
pub mod RoundRobin
