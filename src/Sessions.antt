-- ===== src/Sessions.antt =====
-- The sessions of LibNetworks: the IOCP session with its completion handlers and its lifetime.
pub mod Gather
pub mod IoSession
pub mod IdleChecker
pub mod Outbound
mod Tests
