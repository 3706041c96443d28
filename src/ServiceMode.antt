-- ===== src/ServiceMode.antt =====
-- LibCommons/ServiceMode.cpp: a service of the system's service control manager. Its status and what
-- it reports (Status), its controls (Controls), and the program's own installer (Installer).
pub mod Status
pub mod Controls
pub mod Installer
pub mod Program
mod Tests
