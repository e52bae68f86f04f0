-- ===== src/Frame/Configs.antt =====
-- `trait Config` of the framework's pallets, as far as the two runtimes of the repository choose it. A
-- type that has values is a field for the values; a width stands for a type of numbers.
use Prim.Native.String.{String}
use vantiy_name_registry.Base.{ℕ, Bool, Option, List}
use vantiy_name_registry.Frame.Runtimes.{Part, RuntimeVersion, DbWeight}

-- What the runtimes name: types and functions of the framework, and the types that
-- `construct_runtime!` makes of them. The functions run on the storage, whose states are `Storage`.
pub record Primitives : Type 1 where
  pub Storage : Type 0
  pub Call : Type 0
  pub Event : Type 0
  pub Origin : Type 0
  pub AccountId : Type 0
  pub MultiAddress : Type 0
  pub Hash : Type 0
  pub Header : Type 0
  pub AuraId : Type 0
  pub Proof : Type 0
  pub IdentificationTuple : Type 0
  pub BlockWeights : Type 0
  pub BlockLength : Type 0
  pub WeightInfo : Type 0
  pub default_weights : BlockWeights
  pub default_length : BlockLength
  pub with_sensible_defaults : ℕ → ℕ → BlockWeights
  pub max_with_normal_ratio : ℕ → ℕ → BlockLength
  pub weight_per_second : ℕ
  pub rocks_db_weight : DbWeight
  pub account_id_lookup : MultiAddress → Option AccountId
  pub blake2_256 : List ℕ → Hash
  pub put_code : List ℕ → Storage → Storage
  pub aura_on_timestamp_set : ℕ → Storage → Storage
  pub system_account_store : AccountId → Storage → Option ℕ
  pub currency_adapter : (on_fee : ℕ → Storage → Storage) → AccountId → ℕ → Storage → Option Storage
  -- `impl WeightInfo for ()`, and the `SubstrateWeight` of the balances.
  pub unit_weights : WeightInfo
  pub balances_weights : WeightInfo

-- `frame_system::Config`.
pub record SystemConfig (P : Primitives) : Type 1 where
  pub Call : Type 0
  pub Event : Type 0
  pub Origin : Type 0
  pub AccountId : Type 0
  pub Source : Type 0
  pub Hash : Type 0
  pub Header : Type 0
  pub base_call_filter : Call → Bool
  pub block_weights : P.BlockWeights
  pub block_length : P.BlockLength
  pub lookup : Source → Option AccountId
  pub index_bits : ℕ
  pub block_number_bits : ℕ
  pub hashing : List ℕ → Hash
  pub block_hash_count : ℕ
  pub db_weight : DbWeight
  pub version : RuntimeVersion
  pub pallet_info : List (String × List Part)
  pub on_new_account : AccountId → P.Storage → P.Storage
  pub on_killed_account : AccountId → P.Storage → P.Storage
  pub account_data_bits : ℕ
  pub system_weight_info : P.WeightInfo
  pub ss58_prefix : ℕ
  pub on_set_code : List ℕ → P.Storage → P.Storage

-- `pallet_balances::Config`.
pub record BalancesConfig (P : Primitives) : Type 1 where
  pub Event : Type 0
  pub max_locks : ℕ
  pub max_reserves : ℕ
  pub reserve_identifier_bytes : ℕ
  pub balance_bits : ℕ
  pub dust_removal : ℕ → P.Storage → P.Storage
  pub existential_deposit : ℕ
  pub account_store : P.AccountId → P.Storage → Option ℕ
  pub weight_info : P.WeightInfo

-- `pallet_aura::Config`.
pub record AuraConfig : Type 1 where
  pub AuthorityId : Type 0
  pub disabled_validators : (index : ℕ) → Bool
  pub max_authorities : ℕ

-- `pallet_grandpa::Config`.
pub record GrandpaConfig (P : Primitives) : Type 1 where
  pub Event : Type 0
  pub Call : Type 0
  pub prove_key_owner : List ℕ → Option P.Proof
  pub check_key_owner : P.Proof → Option P.IdentificationTuple
  pub report_equivocation : P.IdentificationTuple → P.Storage → P.Storage
  pub weight_info : P.WeightInfo
  pub max_authorities : ℕ

-- `pallet_timestamp::Config`.
pub record TimestampConfig (P : Primitives) : Type 0 where
  pub moment_bits : ℕ
  pub on_timestamp_set : ℕ → P.Storage → P.Storage
  pub minimum_period : ℕ
  pub weight_info : P.WeightInfo

-- `pallet_transaction_payment::Config`; a multiplier is a fixed-point number.
pub record TransactionPaymentConfig (P : Primitives) : Type 0 where
  pub on_charge_transaction : P.AccountId → ℕ → P.Storage → Option P.Storage
  pub transaction_byte_fee : ℕ
  pub weight_to_fee : ℕ → ℕ
  pub fee_multiplier_update : ℕ → ℕ

-- `pallet_sudo::Config`.
pub record SudoConfig : Type 1 where
  pub Event : Type 0
  pub Call : Type 0
