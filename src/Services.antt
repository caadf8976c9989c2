-- ===== src/Services.antt =====
-- racelink/services: planning, matching and dispatch.
pub mod WireOp
pub mod Optimizer
pub mod Action
pub mod EffectPlan
pub mod Planner
pub mod Pending
pub mod Scenes
pub mod Replies
pub mod Runner
pub mod Cost
pub mod Gateway
pub mod Collect
pub mod Unicast
pub mod Startblock
pub mod Status
pub mod Stream
pub mod Discovery
pub mod Config
pub mod Control
pub mod Keyed
pub mod Presets
