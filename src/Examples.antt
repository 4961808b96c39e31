-- ===== src/Examples.antt =====
-- Runs of the definitions, and the theorems at concrete inputs.
mod Instances
mod Packets
mod Slave
mod Life
mod Master
mod Session
mod Messages
mod Transports
mod Tcp
mod Usb
mod Travel
