-- ===== src/Buffers/Span.antt =====
-- The memory accesses of CircleBufferQueue.ixx and ExternalCircleBufferQueue.ixx: `std::span`s
-- into the storage, and the pairs of `memcpy` by which a block is copied round its end.
mod Copies
pub mod Bounds
unfoldable pub use Copies.*
