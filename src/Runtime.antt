-- ===== src/Runtime.antt =====
-- runtime/src/lib.rs: the constants of the runtime, its pallets, and its configuration of the
-- registry.
pub mod Bounds
pub mod Api
pub mod Benches
pub mod Load
pub mod Pallets
pub mod Fees
mod Tests
use Prim.Native.String.{String}
use vantiy_name_registry.Base.{ℕ, ◌*◌, ◌/◌, List, [], ◌∷◌, list_discrete, ℕ_discrete}
use vantiy_name_registry.Registry.{Config}
use vantiy_name_registry.Registry.Framework.{Framework}
use vantiy_name_registry.Frame.Runtimes.{
  RuntimeVersion, Part, pallet, call, storage, config, event, inherent,
}
use vantiy_name_registry.Mock.{vanity_registry_id}

-- `BlockNumber` is `u32`.
abbrev pub block_number_bits : ℕ
block_number_bits = 32

-- `Balance` is `u128`.
abbrev pub balance_bits : ℕ
balance_bits = 128

abbrev pub millisecs_per_block : ℕ
millisecs_per_block = 6000

abbrev pub slot_duration : ℕ
slot_duration = millisecs_per_block

-- Time is measured by number of blocks.
abbrev pub minutes : ℕ
minutes = 60000 / millisecs_per_block

abbrev pub hours : ℕ
hours = minutes * 60

abbrev pub days : ℕ
days = hours * 24

abbrev pub version : RuntimeVersion
version = record {
  spec_name = "node-template";
  impl_name = "node-template";
  authoring_version = 1;
  spec_version = 100;
  impl_version = 1;
  transaction_version = 1;
}

-- `NativeVersion`; nobody else is authored with.
pub record NativeVersion : Type 0 where
  pub runtime_version : RuntimeVersion
  pub can_author_with : List ℕ

abbrev pub native_version : NativeVersion
native_version = record { runtime_version = version; can_author_with = [] }

-- In percent.
abbrev pub normal_dispatch_ratio : ℕ
normal_dispatch_ratio = 75

abbrev pub block_hash_count : ℕ
block_hash_count = 2400

-- The framework makes the limits of a block from its weight, or its length, and the ratio.
abbrev pub block_weights :
    {A : Type 0} → (with_sensible_defaults : ℕ → ℕ → A) (weight_per_second : ℕ) → A
block_weights with_sensible_defaults weight_per_second =
    with_sensible_defaults (2 * weight_per_second) normal_dispatch_ratio

abbrev pub block_length : {A : Type 0} → (max_with_normal_ratio : ℕ → ℕ → A) → A
block_length max_with_normal_ratio = max_with_normal_ratio (5 * 1024 * 1024) normal_dispatch_ratio

abbrev pub ss58_prefix : ℕ
ss58_prefix = 42

abbrev pub max_authorities : ℕ
max_authorities = 32

abbrev pub minimum_period : ℕ
minimum_period = slot_duration / 2

abbrev pub existential_deposit : ℕ
existential_deposit = 500

abbrev pub max_locks : ℕ
max_locks = 50

abbrev pub transaction_byte_fee : ℕ
transaction_byte_fee = 1

abbrev pub register_period : ℕ
register_period = 7 * days

abbrev pub fund_to_lock : ℕ
fund_to_lock = 113

abbrev pub name_max_len : ℕ
name_max_len = 255

abbrev pub runtime_config : Framework → Config
runtime_config F = record {
  AccountId = F.AccountId;
  Hash = F.Hash;
  Name = List ℕ;
  Origin = F.Origin;
  account_discrete = F.account_discrete;
  hash_discrete = F.hash_discrete;
  name_discrete = list_discrete ℕ_discrete;
  ensure_signed = F.ensure_signed;
  encode_account = F.encode_account;
  encode_name = F.encode_name;
  hash_of_bytes = F.hash_of_bytes;
  block_number_bits = block_number_bits;
  balance_bits = balance_bits;
  module_id = vanity_registry_id;
  register_period = register_period;
  fund_to_lock = fund_to_lock;
  name_max_len = name_max_len;
  lock_periods = F.lock_periods;
  owners = F.owners;
  currency = F.currency;
}

-- The pallets in the order of their indices, with their parts.
abbrev pub runtime_pallets : List (String × List Part)
runtime_pallets =
    ("System", pallet ∷ call ∷ config ∷ storage ∷ event ∷ [])
    ∷ ("RandomnessCollectiveFlip", pallet ∷ storage ∷ [])
    ∷ ("Timestamp", pallet ∷ call ∷ storage ∷ inherent ∷ [])
    ∷ ("Aura", pallet ∷ config ∷ [])
    ∷ ("Grandpa", pallet ∷ call ∷ storage ∷ config ∷ event ∷ [])
    ∷ ("Balances", pallet ∷ call ∷ storage ∷ config ∷ event ∷ [])
    ∷ ("TransactionPayment", pallet ∷ storage ∷ [])
    ∷ ("Sudo", pallet ∷ call ∷ config ∷ storage ∷ event ∷ [])
    ∷ ("VanityRegistry", pallet ∷ call ∷ storage ∷ event ∷ [])
    ∷ []
