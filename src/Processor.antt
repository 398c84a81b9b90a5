-- ===== src/Processor.antt =====
-- The anonymizer (internal/processor/anonymizer.go).
pub mod Outside
pub mod Normalize
pub mod Feature
pub mod Signal
pub mod Mosaic
pub mod SignalId
pub mod FreshId
pub mod Privacy
pub mod Validate
pub mod Geohash
