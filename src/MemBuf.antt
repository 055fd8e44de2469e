-- ===== src/MemBuf.antt =====
-- myserver/src/base/mem_buff/mem_buff.cpp and its header: a buffer in memory that grows.
pub mod Buffer
pub mod Room
pub mod Added
mod Tests
pub mod Hex
