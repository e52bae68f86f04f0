-- ===== src/Registry/Types.antt =====
-- The types of pallets/vanity-registry/src/lib.rs, and what `trait Config` leaves to the runtime.
-- A block number is a native number; the width of its type stands in the configuration.
use vantiy_name_registry.Base.{ℕ, List, Option}
use vantiy_name_registry.Frame.Storage.{StorageMap, StorageDoubleMap}
use vantiy_name_registry.Frame.Currency.{LockableCurrency, LockIdentifier}

-- The period during which a fund for a commit is locked.
pub record LockPeriod : Type 0 where
  pub begin : ℕ
  pub end : ℕ

-- An account with a commit.
pub record Owner (AccountId Hash : Type 0) : Type 0 where
  pub id : AccountId
  pub commit : Hash
  pub lock_period : LockPeriod

pub data Event (Name AccountId Hash : Type 0) : Type 0 where
  name_owned : Name → AccountId → Event Name AccountId Hash
  name_freed : Name → Event Name AccountId Hash
  reveal_discredited : Name → AccountId → Event Name AccountId Hash
  commit_expired : Hash → AccountId → Event Name AccountId Hash

pub data Error : Type 0 where
  name_not_found name_not_owned commit_not_found : Error

-- `trait Config` with what it takes of `frame_system::Config`: the types, the constants, the
-- runtime's encoding and hashing, and the framework's storage and currency.
pub record Config : Type 1 where
  pub AccountId : Type 0
  pub Hash : Type 0
  pub Name : Type 0
  pub Origin : Type 0
  pub account_discrete : Discrete AccountId
  pub hash_discrete : Discrete Hash
  pub name_discrete : Discrete Name
  -- `ensure_signed`: the account that signed, if one did.
  pub ensure_signed : Origin → Option AccountId
  pub encode_account : AccountId → List ℕ
  pub encode_name : Name → List ℕ
  -- `T::Hashing::hash_of` on bytes.
  pub hash_of_bytes : List ℕ → Hash
  pub block_number_bits : ℕ
  pub balance_bits : ℕ
  pub module_id : LockIdentifier
  pub register_period : ℕ
  pub fund_to_lock : ℕ
  pub name_max_len : ℕ
  pub lock_periods : StorageDoubleMap AccountId Hash LockPeriod
  pub owners : StorageMap Name (Owner AccountId Hash)
  pub currency : LockableCurrency AccountId
