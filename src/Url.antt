-- ===== src/Url.antt =====
-- myserver/src/protocol/url.cpp and its header: the parts of a URL.
pub mod Parser
pub mod Find
pub mod Parts
pub mod Whole
mod Tests
