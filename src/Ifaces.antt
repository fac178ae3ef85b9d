-- ===== src/Ifaces.antt =====
-- The enums and tables that the packages share (ifaces/enums.go).
pub mod Enums
pub mod Tests
