-- ===== src/Sessions/IoSession/Lifetime.antt =====
-- The life of a session: the counter of operations in flight, and the one firing of OnDisconnected.
pub mod Invariant
pub mod Posts
pub mod Handlers
pub mod Reach
pub mod Silence
