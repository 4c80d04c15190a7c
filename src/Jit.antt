-- ===== src/Jit.antt =====
-- JIT-AOT-Compilers-master: the markers that the passes of the compiler put on blocks and loops,
-- the map of free registers, and the disjoint sets with which dominators are found.
pub mod Marker
pub mod RegMap
pub mod Dsu
mod Tests
