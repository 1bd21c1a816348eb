-- ===== src/Trackpad.antt =====
-- The touchpad service of the guest (guest/input/trackpad.py): frames of the host become the
-- contacts of a multitouch device.
pub mod Frame
pub mod Pad
pub mod Slots
pub mod Contacts
pub mod Checks
pub mod Serve
pub mod Held
pub mod Lines
mod Tests
