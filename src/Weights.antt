-- ===== src/Weights.antt =====
-- pallets/vanity-registry/src/weights.rs: the weight of each call, and what `#[pallet::weight]` of
-- pallets/vanity-registry/src/lib.rs charges for it.
pub mod Charges
use vantiy_name_registry.Base.{ℕ, List, length}
use vantiy_name_registry.Base.Words.{saturating_add}
use vantiy_name_registry.Frame.Runtimes.{DbWeight}
use vantiy_name_registry.Registry.{
  Config, Request, commit_call, reveal_call, renew_call, unregister_call,
}

pub record WeightInfo : Type 0 where
  pub commit : ℕ
  pub reveal : ℕ → ℕ
  pub renew : ℕ
  pub unregister : ℕ

-- A weight is a `u64`.
infixl 6 ◌+ˢ◌
abbrev pub ◌+ˢ◌ : ℕ → ℕ → ℕ
a +ˢ b = saturating_add 64 a b

-- `impl WeightInfo for SubstrateWeight<T>`.
abbrev pub substrate_weight : DbWeight → WeightInfo
substrate_weight D = record {
  commit = 57300000 +ˢ D.reads 3 +ˢ D.writes 2;
  reveal = λ _l. 24625000 +ˢ D.reads 2 +ˢ D.writes 2;
  renew = 9000000 +ˢ D.reads 1 +ˢ D.writes 1;
  unregister = 62900000 +ˢ D.reads 3 +ˢ D.writes 2;
}

-- `impl WeightInfo for ()`, given the framework's `RocksDbWeight`.
abbrev pub unit_weight : (rocks_db_weight : DbWeight) → WeightInfo
unit_weight rocks_db_weight = record {
  commit = 57300000 +ˢ rocks_db_weight.reads 3 +ˢ rocks_db_weight.writes 2;
  reveal = λ _l. 24625000 +ˢ rocks_db_weight.reads 2 +ˢ rocks_db_weight.writes 2;
  renew = 9000000 +ˢ rocks_db_weight.reads 1 +ˢ rocks_db_weight.writes 1;
  unregister = 62900000 +ˢ rocks_db_weight.reads 3 +ˢ rocks_db_weight.writes 2;
}

-- The `#[pallet::weight]` of each call.
pub call_weight : (T : Config) → WeightInfo → Request T → ℕ
call_weight T W (commit_call hash) = W.commit
call_weight T W (reveal_call name) = W.reveal (length (T.encode_name name))
call_weight T W (renew_call name) = W.renew
call_weight T W (unregister_call name) = W.unregister
