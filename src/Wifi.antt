-- ===== src/Wifi.antt =====
-- The Wi-Fi services of the guest: radio synchronisation, host scans, and the link bridge.
pub mod Radio
pub mod Events
pub mod Power
pub mod Scan
pub mod Link
pub mod Bridge
