-- ===== src/Tests.antt =====
-- Runs of the models at concrete inputs, by part of the program.
pub mod Queue
pub mod Configured
pub mod Flows
pub mod Fragments
pub mod FragmentsL2
pub mod Wans
pub mod Changes
pub mod Learning
pub mod Sealed
pub mod Passing
pub mod Slotted
pub mod Reloaded
