-- ===== src/FilesCache.antt =====
-- myserver/src/base/files_cache/cached_file_factory.cpp and cached_file_buffer.cpp: the cache of files
-- in memory.
pub mod Cache
pub mod Sums
pub mod Sound
pub mod Closed
pub mod Runs
pub mod Served
mod Tests
