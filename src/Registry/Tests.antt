-- ===== src/Registry/Tests.antt =====
-- The tests of pallets/vanity-registry/src/tests.rs on the model, and the theorems at concrete states.
pub mod Sample
pub mod Scenarios
mod Pallet
mod Races
mod Keeping
mod Aged
mod Ties
mod Late
mod Chains
mod Calls
mod Deployed
mod Cycles
mod Writing
mod Orders
