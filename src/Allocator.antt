-- ===== src/Allocator.antt =====
-- `kernel/src/allocator.rs`: the kernel heap, small blocks from slabs and large ones from a buddy
-- allocator. Both link their free blocks through the blocks themselves.
pub mod Size
pub mod Buddy
pub mod Slab
mod Tests
