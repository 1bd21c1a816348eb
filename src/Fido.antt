-- ===== src/Fido.antt =====
-- The FIDO2 transport: reports, the channel machine, and the relay to the host.
pub mod Packets
pub mod Hid
pub mod Relay
