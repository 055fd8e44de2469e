-- ===== src/HashMap.antt =====
-- myserver/src/base/hash_map/hash_map.cpp and its header, the hash table of the server.
pub mod Types
pub mod Hash
pub mod Chain
pub mod Table
pub mod Resize
pub mod Methods
pub mod Sum
pub mod Entries
pub mod Spread
pub mod Holds
pub mod Shape
pub mod Grow
pub mod Increase
pub mod Models
pub mod Refine
pub mod Shrink
pub mod Decrease
pub mod Remove
pub mod Laws
pub mod Put
pub mod Iterator
pub mod Steps
pub mod Walk
pub mod RemoveAt
pub mod Create
pub mod Samples
mod Tests
