-- ===== src/Services.antt =====
-- The services that the completions of the system arrive at, and what connects sessions to them.
pub mod IoService
pub mod RioService
pub mod Acceptor
mod Tests
