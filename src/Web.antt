-- ===== src/Web.antt =====
-- racelink/web: the tasks of the web interface.
pub mod Tasks
