-- ===== src/Registry/Expiry.antt =====
-- `on_finalize` of pallets/vanity-registry/src/lib.rs: its two loops, and what one round of each
-- does.
pub mod Commits
pub mod Names
pub mod Locks
pub mod Finalize
pub mod Others
