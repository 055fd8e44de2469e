-- ===== src/Range.antt =====
-- myserver/src/conf/vhost/ip.cpp: the test whether an address is in a range.
pub mod Octets
pub mod InRange
mod Tests
