-- ===== src/Wardveil.antt =====
-- The Wardveil Scan consumer (internal/wardveil).
pub mod Types
pub mod Action
pub mod ScanResult
pub mod Scan
pub mod Gate
pub mod ScanText
pub mod HttpScanner
pub mod Verdict
