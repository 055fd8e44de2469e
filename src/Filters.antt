-- ===== src/Filters.antt =====
-- myserver/src/filter/filters_chain.cpp: the chain of filters before a stream.
pub mod Chain
pub mod Linked
pub mod Moves
pub mod Runs
mod Tests
