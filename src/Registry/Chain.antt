-- ===== src/Registry/Chain.antt =====
-- The registry over a chain: calls by any origin in any order, and the end of a block, which runs
-- `on_finalize` of pallets/vanity-registry/src/lib.rs and raises the block number.
pub mod Periods
pub mod Cover
pub mod Keeping
pub mod Waiting
pub mod Protocol
pub mod Idle
pub mod Replay
pub mod Renewal
pub mod Aging
pub mod Wrapping
pub mod Registration
use vantiy_name_registry.Base.{ℕ, suc, ◌≡◌, [], arith}
use vantiy_name_registry.Registry.{Config, State, Request, dispatch, on_finalize}

unfoldable pub genesis : (T : Config) → State T
genesis T = record {
  block_number = 0;
  lock_periods = T.lock_periods.empty;
  owners = T.owners.empty;
  locks = T.currency.no_locks;
  events = [];
}

unfoldable pub next_block : (T : Config) → State T → State T
next_block T s = record (on_finalize T s.block_number s) { block_number = suc s.block_number }

pub data Step (T : Config) (s t : State T) : Type 0 where
  call : (origin : T.Origin) (q : Request T) → t ≡ (dispatch T origin q s).1 → Step T s t
  seal : t ≡ next_block T s → Step T s t

pub data Reach (T : Config) : State T → Type 0 where
  start : Reach T (genesis T)
  next : {s t : State T} → Reach T s → Step T s t → Reach T t
