-- ===== src/Master.antt =====
-- The master's side of the protocol: src/master_request.h, src/master_request.cpp, src/master.h and
-- src/master.cpp.
pub mod Requests
pub mod Manager
pub mod Machine
pub mod Engine
pub mod Pending
pub mod Answers
pub mod Writing
pub mod Commands
pub mod Unique
pub mod Retries
pub mod Unknown
pub mod Doomed
pub mod Ending
pub mod Refused
pub mod Connecting
pub mod Session
pub mod Moves
pub mod Ledger
pub mod Accounts
pub mod Balance
pub mod Calls
pub mod Life
pub mod Whole
pub mod Joining
