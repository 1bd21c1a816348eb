-- ===== src/Fido/Hid.antt =====
-- The CTAPHID channel machine (guest/auth/fido2.py, `class HID`). A method returns the new state
-- and what it hands to its callbacks, in order. Times are milliseconds; request ids, random UUID
-- texts that the code only compares, are numbers.
pub mod State
pub mod Defs
pub mod Deadlines
pub mod Reports
pub mod Channels
pub mod Invariant
pub mod Calls
pub mod Clock
pub mod Reassembly
pub mod Delivery
mod Tests
