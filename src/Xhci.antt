-- ===== src/Xhci.antt =====
-- The rings of the xHCI driver, kernel/src/xhci.
pub mod Trb
pub mod Ring
pub mod Event
pub mod Port
pub mod Controller
pub mod Devices
