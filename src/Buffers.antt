-- ===== src/Buffers.antt =====
-- The byte buffers of LibCommons: the two circular queues, the interface IBuffer through which the
-- packet layer and the sessions use them, and the byte queue that they are meant to be.
pub mod Span
pub mod Fifo
pub mod Circle
pub mod External
pub mod Interface
mod Tests
