-- ===== src/Collections.antt =====
-- The ordered collections of Rust's standard library that the kernel uses.
pub mod Order
pub mod TreeMap
