-- ===== src/Timers.antt =====
-- The timer queue of LibCommons: scheduling, callbacks, cancelling and shutting down.
pub mod Queue
pub mod Api
pub mod Scoped
pub mod Ticker
mod Tests
