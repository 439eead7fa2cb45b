-- ===== src/Utilities.antt =====
-- The string functions of src/Utilities.cpp.
pub mod Text
pub mod Base64
pub mod Arguments
pub mod Clean
pub mod Exec
pub mod Numbers
mod Tests
