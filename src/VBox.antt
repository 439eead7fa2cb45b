-- ===== src/VBox.antt =====
-- src/Hypervisor/Virtualbox: the VirtualBox session.
pub mod States
pub mod Session
pub mod Macros
pub mod Probes
pub mod Instance
mod Tests
