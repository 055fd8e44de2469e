-- ===== src/BitVec.antt =====
-- myserver/src/base/bitvec/bitvec.cpp and its header: the search for a bit that is set.
pub mod Words
pub mod Search
mod Tests
