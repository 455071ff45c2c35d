-- ===== src/Retirement.antt =====
-- The retirement of local backup payloads, src/game_control/retirement.py: the payload is moved
-- into quarantine, removed, or moved back, and a ledger says how far each of them is.
pub mod Payloads
pub mod Ledger
pub mod Steps
pub mod World
pub mod Phases
pub mod Assertions
pub mod Rows
pub mod Places
pub mod Quiet
pub mod Moves
pub mod Writes
pub mod Others
pub mod Rounds
pub mod Entries
pub mod Quarantines
pub mod Moving
pub mod Purges
pub mod Intents
pub mod Removals
pub mod Rollbacks
pub mod Restoring
pub mod Locked
pub mod Runs
pub mod Reports
pub mod Recovery
pub mod Classified
pub mod Available
pub mod Loading
pub mod Outcomes
mod Examples
