-- ===== src/Set.antt =====
-- The containers of lib/libnc/set: the allocator of small numbers, the balanced tree, the ring
-- buffer, the binary heap and the linked lists.
pub mod Sequence
pub mod Tree
pub mod Ring
pub mod Heap
pub mod Links
