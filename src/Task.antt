-- ===== src/Task.antt =====
-- The rig task: src/trx-server/src/rig_task.rs, over the state of src/trx-core/src/rig/state.rs.
pub mod State
pub mod Sync
pub mod Backend
pub mod Tuning
pub mod Route
pub mod Process
pub mod Batch
pub mod Start
pub mod Loop
