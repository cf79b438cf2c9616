-- ===== src/Rig.antt =====
-- Rig control (src/trx-core/src/rig): the data that describes a rig, its lifecycle state machine,
-- the command handlers, and the retry and polling policies.
pub mod Types
pub mod Modes
pub mod Command
pub mod Machine
pub mod Handlers
pub mod Policies
