-- ===== src/Domain.antt =====
-- racelink/domain: flags, the offset formula, scope tokens and devices.
pub mod Flags
pub mod OffsetFormula
pub mod Params
pub mod Device
pub mod StateScope
