-- ===== src/Bluetooth.antt =====
-- The Bluetooth services of the guest.
pub mod Events
pub mod Operation
pub mod Bridge
