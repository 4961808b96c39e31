-- ===== src/Usb.antt =====
-- The transport over USB: src/usb_async.h and src/usb_async.cpp.
pub mod Libusb
pub mod Device
pub mod Callbacks
pub mod Flight
pub mod Exchange
pub mod Reading
pub mod Closing
pub mod Opening
pub mod Failing
pub mod Sending
pub mod Writing
pub mod Ending
pub mod Life
