-- ===== src/Rio/Session.antt =====
-- RIOSession of LibNetworksRIO/RIOSession.cpp: its state and surroundings (State), sending (Sending),
-- receiving and the completions (Receiving); then its histories.
pub mod State
pub mod Sending
pub mod Receiving
mod Chunks
pub mod Outgoing
mod Invariant
mod Sends
mod Rounds
mod Receives
mod Histories
mod Progress
mod Liveness
pub mod Delivery
pub mod Messages
mod Tests
