-- ===== src/Controller.antt =====
-- controller.py: the host controller.
pub mod Gateway
