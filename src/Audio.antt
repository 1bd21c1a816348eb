-- ===== src/Audio.antt =====
-- The audio services of the guest.
pub mod Stream
pub mod Graph
pub mod Events
pub mod Monitor
pub mod Volume
