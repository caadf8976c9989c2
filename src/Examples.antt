-- ===== src/Examples.antt =====
-- Small inputs: what the modelled code does on them, and the theorems at them.
mod Protocol
mod Optimizer
mod Planner
mod Pending
mod Scenes
mod Replies
mod Renumber
mod StateScope
mod Stream
mod Runner
mod Gateway
mod Unicast
mod Validate
mod Load
mod Store
mod Tasks
mod Transport
mod Link
mod Startblock
mod Sweep
mod Control
mod Presets
