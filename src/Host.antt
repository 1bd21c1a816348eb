-- ===== src/Host.antt =====
-- What the guest services share of the host's state, and the children of a session on the host.
pub mod Status
pub mod Services
mod Tests
