-- ===== src/Server.antt =====
-- The server applications' handling of packets: the messages (Messages), the administrator's requests
-- (Admin), what a client's session answers (Inbound), how the RIO server makes
-- sessions (RioMode), and the container that they register in (Container, Registry).
pub mod Messages
pub mod Admin
pub mod Inbound
pub mod RioMode
pub mod Modes
pub mod Container
pub mod Registry
mod Tests
