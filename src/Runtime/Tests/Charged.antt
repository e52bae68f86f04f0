-- ===== src/Runtime/Tests/Charged.antt =====
-- What calls cost and how much of a block they take under runtime/src/lib.rs, with the database weights
-- of RocksDB.
use vantiy_name_registry.Base.{ℕ, ◌+◌, ◌*◌, ◌/◌, ◌≤◌, ◌≡◌, refl, some, List, [], ◌∷◌, arith}
use vantiy_name_registry.Frame.Runtimes.{DbWeight}
use vantiy_name_registry.Frame.Configs.{Primitives}
use vantiy_name_registry.Registry.{Request, commit_call, reveal_call, renew_call, unregister_call}
use vantiy_name_registry.Registry.Tests.Sample.{sample}
use vantiy_name_registry.Weights.{unit_weight, call_weight}
use vantiy_name_registry.Weights.Charges.{base_weight, read_count, write_count}
use vantiy_name_registry.Runtime.{runtime_config}
use vantiy_name_registry.Runtime.Load.{total_weight, normal_share, total_weight-le_normal_share}
use vantiy_name_registry.Runtime.Pallets.{transaction_payment_config}
use vantiy_name_registry.Runtime.Fees.{Payment, IsDocumented, multiplier_after, call-fee}

-- The weights of RocksDB.
abbrev rocks_db : DbWeight
rocks_db = record { reads = λ n. n * 25000000; writes = λ n. n * 100000000 }

-- Each of the calls once.
abbrev one_of_each : List (Request (runtime_config sample))
one_of_each = commit_call [] ∷ reveal_call [] ∷ renew_call [] ∷ unregister_call [] ∷ []

total_weight-le_normal_share_example :
    total_weight sample rocks_db 125000000 one_of_each ≤ normal_share 1000000000000
total_weight-le_normal_share_example =
    total_weight-le_normal_share sample rocks_db 125000000 1000000000000 one_of_each
      (record { reads-eq = λ n l. refl; writes-eq = λ n l. refl }) (omega arith) refl (omega arith)

-- A storage that is one balance, from which every account pays.
abbrev plain : Primitives
plain = record {
  Storage = ℕ;
  Call = List ℕ;
  Event = Unit;
  Origin = Unit;
  AccountId = ℕ;
  MultiAddress = ℕ;
  Hash = List ℕ;
  Header = Unit;
  AuraId = ℕ;
  Proof = Unit;
  IdentificationTuple = Unit;
  BlockWeights = ℕ × ℕ;
  BlockLength = ℕ × ℕ;
  WeightInfo = Unit;
  default_weights = (0, 0);
  default_length = (0, 0);
  with_sensible_defaults = λ weight percent. (weight, percent);
  max_with_normal_ratio = λ len percent. (len, percent);
  weight_per_second = 1000000000000;
  rocks_db_weight = rocks_db;
  account_id_lookup = λ a. some a;
  blake2_256 = λ bytes. bytes;
  put_code = λ _ s. s;
  aura_on_timestamp_set = λ _ s. s;
  system_account_store = λ _ s. some s;
  currency_adapter = λ on_fee who fee s. some (on_fee fee s);
  unit_weights = tt;
  balances_weights = tt;
}

abbrev till : Payment plain
till = record {
  overhead = 125000000;
  compute_fee = λ C multiplier len weight.
      C.weight_to_fee 125000000
      + C.transaction_byte_fee * len
      + multiplier * C.weight_to_fee weight / 1000000000000000000;
}

till-IsDocumented : IsDocumented plain till
till-IsDocumented = record { fee-eq = λ C m l w h. refl; overhead-le = omega arith }

call-fee_example :
    let q : Request (runtime_config sample) = commit_call [] in
    let fee : ℕ → ℕ = λ blocks.
      till.compute_fee
        (transaction_payment_config plain)
        (multiplier_after (transaction_payment_config plain) blocks)
        140
        (call_weight (runtime_config sample) (unit_weight rocks_db) q) in
    (fee 0
      ≡ till.overhead
        + 140
        + (base_weight (runtime_config sample) q
            + read_count (runtime_config sample) q * 25000000
            + write_count (runtime_config sample) q * 100000000))
    × (fee 8 ≡ till.overhead + 140)
call-fee_example =
    call-fee sample plain till rocks_db (commit_call []) 7 140 25000000 100000000 till-IsDocumented
      (λ n h. refl) (λ n h. refl) (omega arith) (omega arith) (omega arith)
