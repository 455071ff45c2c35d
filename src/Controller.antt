-- ===== src/Controller.antt =====
-- The parts of src/game_control/controller.py that keep its tables: requests, confirmations and
-- jobs.
pub mod Database
pub mod Replay
pub mod Confirmations
pub mod Jobs
pub mod Lifecycle
mod Examples
