-- ===== src/Controller/Lifecycle.antt =====
-- The lifecycle handlers of src/game_control/controller.py: start, stop, restart and switch of a
-- server, with the lease of the game slot that each of them holds meanwhile.
pub mod Script
pub mod Leases
pub mod Start
pub mod Stop
pub mod Switch
pub mod Prepare
pub mod Guarded
pub mod Holding
pub mod Starts
pub mod Stops
pub mod Switching
pub mod Releasing
pub mod Targets
pub mod Rollbacks
pub mod Switches
mod Examples
