-- ===== src/Registry/Framework.antt =====
-- What a runtime gets from the framework for the registry (pallets/vanity-registry/src/lib.rs), apart
-- from the constants that it chooses itself. A name is a vector of bytes.
use vantiy_name_registry.Base.{ℕ, Option, List}
use vantiy_name_registry.Frame.Storage.{StorageMap, StorageDoubleMap}
use vantiy_name_registry.Frame.Currency.{LockableCurrency}
use vantiy_name_registry.Registry.{LockPeriod, Owner}

pub record Framework : Type 1 where
  pub AccountId : Type 0
  pub Hash : Type 0
  pub Origin : Type 0
  pub account_discrete : Discrete AccountId
  pub hash_discrete : Discrete Hash
  pub ensure_signed : Origin → Option AccountId
  pub encode_account : AccountId → List ℕ
  pub encode_name : List ℕ → List ℕ
  pub hash_of_bytes : List ℕ → Hash
  pub lock_periods : StorageDoubleMap AccountId Hash LockPeriod
  pub owners : StorageMap (List ℕ) (Owner AccountId Hash)
  pub currency : LockableCurrency AccountId
