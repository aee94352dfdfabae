-- ===== src/Repair.antt =====
-- app/backend/enrollment_repair_store.py: the requests and tickets of a controller-managed repair.
pub mod Rows
pub mod Guards
pub mod Outcomes
pub mod Store
pub mod Create
pub mod Calls
pub mod Phases
pub mod Sound
pub mod Invariant
pub mod Writes
pub mod Slot
pub mod Targets
pub mod Inserts
pub mod Runs
pub mod Progress
pub mod Tickets
pub mod Final
pub mod Redeemed
pub mod Created
pub mod Examples
