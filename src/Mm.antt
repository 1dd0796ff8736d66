-- ===== src/Mm.antt =====
-- kernel/mm: physical frames, the frames that processes share, and the heap.
pub mod Frames
pub mod Heap
pub mod Cow
