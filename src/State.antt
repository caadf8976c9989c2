-- ===== src/State.antt =====
-- racelink/state: the repository of the devices.
pub mod Repository
