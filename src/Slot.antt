-- ===== src/Slot.antt =====
pub mod Values
pub mod Record
pub mod RoundTrip
pub mod Exec
pub mod Disk
pub mod Store
pub mod Lease
pub mod Views
pub mod Granting
pub mod Holding
pub mod Exclusion
pub mod Renewal
pub mod Handoff
pub mod Inspector
mod Examples
