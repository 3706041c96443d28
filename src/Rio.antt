-- ===== src/Rio.antt =====
-- Registered I/O of LibNetworksRIO: the manager of the registered memory.
pub mod Slices
pub mod Session
mod Tests
