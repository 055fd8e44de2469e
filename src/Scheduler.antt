-- ===== src/Scheduler.antt =====
-- myserver/src/connections_scheduler/connections_scheduler.cpp, the queues of the connections that
-- are ready, and the table of all connections.
pub mod Types
pub mod Queues
pub mod Turns
pub mod Operations
pub mod Cases
pub mod Runs
pub mod Logs
pub mod Order
pub mod Alive
pub mod Calls
mod Tests
