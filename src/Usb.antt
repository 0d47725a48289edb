-- ===== src/Usb.antt =====
-- USB devices, kernel/src/usb.
pub mod Descriptor
pub mod Host
pub mod Hub
pub mod Index
pub mod Input
pub mod Inspect
pub mod Manager
pub mod Route
pub mod Samples
pub mod Search
pub mod Table
pub mod Transfer
