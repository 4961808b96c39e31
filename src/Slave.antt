-- ===== src/Slave.antt =====
-- The slave's side of the protocol: src/slave_request.h, src/slave_request.cpp, src/slave.h and
-- src/slave.cpp.
pub mod Manager
pub mod Groups
pub mod Sending
pub mod Machine
pub mod Engine
pub mod Handlers
pub mod Session
pub mod Life
pub mod Packets
pub mod Rejoin
pub mod Rounds
pub mod Arming
pub mod Watchdog
pub mod Stale
pub mod Joining
pub mod Commands
