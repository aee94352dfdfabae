-- ===== src/Broker.antt =====
-- app/backend/broker.py: the pull-based scheduler of one site. Times are seconds or finer ticks of a
-- clock, given as an argument; machines, Studios, batches and models are identifiers that are
-- compared for equality; memory is counted in tenths of a gigabyte.
pub mod Memory
pub mod Circuit
pub mod Models
pub mod Leases
pub mod Items
pub mod Retry
pub mod Queue
pub mod Dispatch
mod Examples
