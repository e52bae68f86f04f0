-- ===== src/Runtime/Pallets.antt =====
-- How runtime/src/lib.rs configures the framework's pallets.
use vantiy_name_registry.Base.{true, false, none}
use vantiy_name_registry.Base.Words.{saturated_into}
use vantiy_name_registry.Frame.Configs.{
  Primitives, SystemConfig, BalancesConfig, AuraConfig, GrandpaConfig, TimestampConfig,
  TransactionPaymentConfig, SudoConfig,
}
use vantiy_name_registry.Runtime.{
  block_number_bits, balance_bits, version, block_hash_count, block_weights, block_length,
  ss58_prefix, max_authorities, minimum_period, existential_deposit, max_locks,
  transaction_byte_fee, runtime_pallets,
}

module _ (P : Primitives) where
  -- A hook that is `()` does nothing. `SetCode` of `()` writes the code into the storage.
  abbrev pub system_config : SystemConfig P
  system_config = record {
    Call = P.Call;
    Event = P.Event;
    Origin = P.Origin;
    AccountId = P.AccountId;
    Source = P.MultiAddress;
    Hash = P.Hash;
    Header = P.Header;
    base_call_filter = λ _call. true;
    block_weights = block_weights P.with_sensible_defaults P.weight_per_second;
    block_length = block_length P.max_with_normal_ratio;
    lookup = P.account_id_lookup;
    index_bits = 32;
    block_number_bits = block_number_bits;
    hashing = P.blake2_256;
    block_hash_count = block_hash_count;
    db_weight = P.rocks_db_weight;
    version = version;
    pallet_info = runtime_pallets;
    on_new_account = λ _who s. s;
    on_killed_account = λ _who s. s;
    account_data_bits = balance_bits;
    system_weight_info = P.unit_weights;
    ss58_prefix = ss58_prefix;
    on_set_code = P.put_code;
  }

  -- No validator is disabled.
  abbrev pub aura_config : AuraConfig
  aura_config = record {
    AuthorityId = P.AuraId;
    disabled_validators = λ _index. false;
    max_authorities = max_authorities;
  }

  -- Nobody can prove that a key is theirs, and an equivocation has no consequence.
  abbrev pub grandpa_config : GrandpaConfig P
  grandpa_config = record {
    Event = P.Event;
    Call = P.Call;
    prove_key_owner = λ _key. none;
    check_key_owner = λ _proof. none;
    report_equivocation = λ _offender s. s;
    weight_info = P.unit_weights;
    max_authorities = max_authorities;
  }

  abbrev pub timestamp_config : TimestampConfig P
  timestamp_config = record {
    moment_bits = 64;
    on_timestamp_set = P.aura_on_timestamp_set;
    minimum_period = minimum_period;
    weight_info = P.unit_weights;
  }

  -- Nothing can be reserved under a name, and dust is burnt.
  abbrev pub balances_config : BalancesConfig P
  balances_config = record {
    Event = P.Event;
    max_locks = max_locks;
    max_reserves = 0;
    reserve_identifier_bytes = 8;
    balance_bits = balance_bits;
    dust_removal = λ _amount s. s;
    existential_deposit = existential_deposit;
    account_store = P.system_account_store;
    weight_info = P.balances_weights;
  }

  -- A fee is burnt, and a weight is its own fee (`IdentityFee`). The `Convert` of `()` gives the
  -- default, which is a multiplier of zero.
  abbrev pub transaction_payment_config : TransactionPaymentConfig P
  transaction_payment_config = record {
    on_charge_transaction = P.currency_adapter (λ _fee s. s);
    transaction_byte_fee = transaction_byte_fee;
    weight_to_fee = λ weight. saturated_into balance_bits weight;
    fee_multiplier_update = λ _multiplier. 0;
  }

  abbrev pub sudo_config : SudoConfig
  sudo_config = record { Event = P.Event; Call = P.Call }
