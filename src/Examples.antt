-- ===== src/Examples.antt =====
-- Runs of the models on concrete input, and the theorems applied to them.
pub mod Clock
pub mod Events
pub mod Reports
pub mod Rounds
pub mod Work
pub mod Documents
pub mod Versions
pub mod Journal
pub mod Roster
pub mod Core
