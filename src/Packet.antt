-- ===== src/Packet.antt =====
-- src/packet.h and src/packet.cpp: the packet format, its checks and its constructors.
pub mod Crc
pub mod Format
pub mod Parse
pub mod Make
pub mod Layout
pub mod Written
pub mod Blocks
pub mod RoundTrip
pub mod Constructors
pub mod CrcLaws
pub mod Checks
pub mod View
