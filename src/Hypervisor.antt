-- ===== src/Hypervisor.antt =====
-- src/Hypervisor.cpp: versions of a hypervisor, its table of sessions, and the downloads.
pub mod Codes
pub mod Version
pub mod Downloads
pub mod Sessions
pub mod Context
mod Tests
