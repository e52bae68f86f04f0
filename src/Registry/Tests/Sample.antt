-- ===== src/Registry/Tests/Sample.antt =====
-- A framework that runs: accounts are numbers, the hash of some bytes is these bytes, and the storage
-- and the currency are association lists. The pallet's mock runtime
-- (pallets/vanity-registry/src/mock.rs) is set up on it.
use vantiy_name_registry.Base.{list_discrete, ℕ, Option, List, [], ◌∷◌, ℕ_discrete}
use vantiy_name_registry.Frame.Maps.{assoc_map, assoc_double_map}
use vantiy_name_registry.Frame.Locks.{assoc_currency}
use vantiy_name_registry.Registry.{Config, LockPeriod, Owner}
use vantiy_name_registry.Registry.Framework.{Framework}
use vantiy_name_registry.Mock.{test_config}

pub LockPeriod_set : IsSet LockPeriod
LockPeriod_set = hlevel

pub Owner_set : IsSet (Owner ℕ (List ℕ))
Owner_set = hlevel

abbrev pub sample : Framework
sample = record {
  AccountId = ℕ;
  Hash = List ℕ;
  Origin = Option ℕ;
  account_discrete = ℕ_discrete;
  hash_discrete = list_discrete ℕ_discrete;
  ensure_signed = λ origin. origin;
  encode_account = λ a. a ∷ [];
  encode_name = λ name. name;
  hash_of_bytes = λ bytes. bytes;
  lock_periods = assoc_double_map ℕ_discrete (list_discrete ℕ_discrete) LockPeriod_set;
  owners = assoc_map (list_discrete ℕ_discrete) Owner_set;
  currency = assoc_currency ℕ_discrete;
}

abbrev pub T : Config
T = test_config sample
