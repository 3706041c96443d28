-- ===== src/Sessions/IoSession.antt =====
-- IOSession of LibNetworks/IOSession.cpp and IOSession.ixx: the IOCP session. The handlers run one at
-- a time here; what each leaves to the system is a field of the state (`recvs`, `sends`: the operations
-- posted and not yet completed), and what it reports is in `events`, newest first.
-- The two buffers are present in every session that the servers build, so the tests of a null buffer
-- have no counterpart. Logging is left out.
pub mod State
pub mod Disconnect
pub mod Posting
pub mod Sending
pub mod Receiving
pub mod Lifetime
pub mod Delivery
