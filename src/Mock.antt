-- ===== src/Mock.antt =====
-- pallets/vanity-registry/src/mock.rs: the runtime that the pallet's own tests run on.
use Prim.Native.String.{String}
use vantiy_name_registry.Frame.Runtimes.{Part, pallet, call, storage, config, event}
use vantiy_name_registry.Frame.Configs.{Primitives, SystemConfig, BalancesConfig}
use vantiy_name_registry.Base.{true, some, list_discrete, ℕ, List, [], ◌∷◌, ℕ_discrete}
use vantiy_name_registry.Registry.{Config, State}
use vantiy_name_registry.Registry.Chain.{genesis}
use vantiy_name_registry.Registry.Framework.{Framework}

-- The pallets in the order of their indices.
abbrev pub mock_pallets : List (String × List Part)
mock_pallets =
    ("System", pallet ∷ call ∷ config ∷ storage ∷ event ∷ [])
    ∷ ("Balances", pallet ∷ call ∷ storage ∷ config ∷ event ∷ [])
    ∷ ("VanityRegistry", pallet ∷ call ∷ storage ∷ event ∷ [])
    ∷ []

abbrev pub block_hash_count : ℕ
block_hash_count = 250

abbrev pub existential_deposit : ℕ
existential_deposit = 1

module _ (P : Primitives) where
  -- What is `()` has the default value, and a hook that is `()` does nothing.
  abbrev pub mock_system_config : SystemConfig P
  mock_system_config = record {
    Call = P.Call;
    Event = P.Event;
    Origin = P.Origin;
    AccountId = P.AccountId;
    Source = P.AccountId;
    Hash = P.Hash;
    Header = P.Header;
    base_call_filter = λ _call. true;
    block_weights = P.default_weights;
    block_length = P.default_length;
    lookup = λ who. some who;
    index_bits = 64;
    block_number_bits = 64;
    hashing = P.blake2_256;
    block_hash_count = block_hash_count;
    db_weight = record { reads = λ _n. 0; writes = λ _n. 0 };
    version = record {
      spec_name = "";
      impl_name = "";
      authoring_version = 0;
      spec_version = 0;
      impl_version = 0;
      transaction_version = 0;
    };
    pallet_info = mock_pallets;
    on_new_account = λ _who s. s;
    on_killed_account = λ _who s. s;
    account_data_bits = 64;
    system_weight_info = P.unit_weights;
    ss58_prefix = 0;
    on_set_code = P.put_code;
  }

  abbrev pub mock_balances_config : BalancesConfig P
  mock_balances_config = record {
    Event = P.Event;
    max_locks = 0;
    max_reserves = 0;
    reserve_identifier_bytes = 8;
    balance_bits = 64;
    dust_removal = λ _amount s. s;
    existential_deposit = existential_deposit;
    account_store = P.system_account_store;
    weight_info = P.unit_weights;
  }

-- `*b"registry"`.
abbrev pub vanity_registry_id : List ℕ
vanity_registry_id = 114 ∷ 101 ∷ 103 ∷ 105 ∷ 115 ∷ 116 ∷ 114 ∷ 121 ∷ []

abbrev pub register_period : ℕ
register_period = 95

abbrev pub fund_to_lock : ℕ
fund_to_lock = 57

abbrev pub name_max_len : ℕ
name_max_len = 255

-- Block numbers and balances are `u64`.
abbrev pub test_config : Framework → Config
test_config F = record {
  AccountId = F.AccountId;
  Hash = F.Hash;
  Name = List ℕ;
  Origin = F.Origin;
  account_discrete = F.account_discrete;
  hash_discrete = F.hash_discrete;
  name_discrete = list_discrete ℕ_discrete;
  ensure_signed = F.ensure_signed;
  encode_account = F.encode_account;
  encode_name = F.encode_name;
  hash_of_bytes = F.hash_of_bytes;
  block_number_bits = 64;
  balance_bits = 64;
  module_id = vanity_registry_id;
  register_period = register_period;
  fund_to_lock = fund_to_lock;
  name_max_len = name_max_len;
  lock_periods = F.lock_periods;
  owners = F.owners;
  currency = F.currency;
}

-- The default genesis: block 0, and nothing in the storage.
abbrev pub new_test_ext : (F : Framework) → State (test_config F)
new_test_ext F = genesis (test_config F)
