-- ===== src/Frame.antt =====
-- The interfaces of the framework that the pallet stands on: its storage maps, the currency with
-- locks, and the results of a dispatchable call. Their code is not in the repository.
pub mod Storage
pub mod Currency
pub mod Dispatch
pub mod Runtimes
pub mod Configs
pub mod Assoc
pub mod Maps
pub mod Locks
pub mod Counted
