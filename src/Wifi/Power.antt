-- ===== src/Wifi/Power.antt =====
-- The radio service (guest/devices/wifi_power.py, `class WiFiPower`).
pub mod Defs
pub mod World
pub mod Evolution
pub mod Submission
pub mod Timers
mod Tests
