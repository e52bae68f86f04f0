-- ===== src/Runtime/Load.antt =====
-- The weight of calls of the registry against that of a block of runtime/src/lib.rs, with the weights of
-- pallets/vanity-registry/src/weights.rs that the runtime charges (`type WeightInfo = ()`).
use vantiy_name_registry.Base.{ℕ, ◌+◌, ◌*◌, ◌/◌, ◌≤◌, ◌<◌, ◌^◌, ◌≡◌, List, [], ◌∷◌, length, arith}
use vantiy_name_registry.Registry.{Request, commit_call, reveal_call, renew_call, unregister_call}
use vantiy_name_registry.Registry.Framework.{Framework}
use vantiy_name_registry.Frame.Runtimes.{DbWeight}
use vantiy_name_registry.Weights.{unit_weight, call_weight}
use vantiy_name_registry.Weights.Charges.{base_weight, read_count, write_count, call_weight-exact}
use vantiy_name_registry.Runtime.{runtime_config, block_weights}

-- `RocksDbWeight` as the framework documents it: 25 microseconds a read and 100 a write, while they fit into the type of a weight.
pub record IsRocksDb (D : DbWeight) : Type 0 where
  pub reads-eq : (n : ℕ) → n * 25000000 < 2 ^ 64 → D.reads n ≡ n * 25000000
  pub writes-eq : (n : ℕ) → n * 100000000 < 2 ^ 64 → D.writes n ≡ n * 100000000

-- The share of a block's weight that normal calls have, as the framework makes it of a weight and a
-- percentage.
abbrev pub normal_share : (weight_per_second : ℕ) → ℕ
normal_share weight_per_second =
    block_weights (λ weight percent. weight * percent / 100) weight_per_second

module _ (F : Framework) (D : DbWeight) where
  -- What some extrinsics weigh together, each a call with the same overhead.
  pub total_weight : (overhead : ℕ) → List (Request (runtime_config F)) → ℕ
  total_weight overhead [] = 0
  total_weight overhead (q ∷ qs) =
      overhead + call_weight (runtime_config F) (unit_weight D) q + total_weight overhead qs

  call_weight-eq :
      (q : Request (runtime_config F))
      → IsRocksDb D
      → call_weight (runtime_config F) (unit_weight D) q
        ≡ base_weight (runtime_config F) q
          + read_count (runtime_config F) q * 25000000
          + write_count (runtime_config F) q * 100000000
  call_weight-eq q d =
      let (exact, same) =
        call_weight-exact (runtime_config F) D q 25000000 100000000
          (λ n l. d.reads-eq n (omega arith)) (λ n l. d.writes-eq n (omega arith)) (omega arith)
          (omega arith) in
      omega (arith, exact, same)

  -- `unregister` weighs most.
  call_weight-le :
      (q : Request (runtime_config F))
      → IsRocksDb D
      → call_weight (runtime_config F) (unit_weight D) q ≤ 337900000
  call_weight-le (commit_call hash) d = omega (arith, call_weight-eq (commit_call hash) d)
  call_weight-le (reveal_call name) d = omega (arith, call_weight-eq (reveal_call name) d)
  call_weight-le (renew_call name) d = omega (arith, call_weight-eq (renew_call name) d)
  call_weight-le (unregister_call name) d = omega (arith, call_weight-eq (unregister_call name) d)

  total_weight-le :
      (overhead : ℕ) (qs : List (Request (runtime_config F)))
      → IsRocksDb D
      → total_weight overhead qs ≤ length qs * (overhead + 337900000)
  unfolding total_weight
  total_weight-le overhead [] d = omega arith
  total_weight-le overhead (q ∷ qs) d =
      grind (arith, call_weight-le q d, total_weight-le overhead qs d)

-- Where a second is a weight of 10 ^ 12, an extrinsic has an overhead of at most 125 microseconds, and
-- the database weighs what the framework documents of RocksDB, any 3240 calls of the registry or fewer,
-- whatever they are, weigh together with their overheads no more than the share of one block's weight that
-- normal calls have. The length of an extrinsic, which a block limits too, is not part of its weight.
pub total_weight-le_normal_share :
    (F : Framework) (D : DbWeight) (overhead weight_per_second : ℕ)
    (qs : List (Request (runtime_config F)))
    → IsRocksDb D
    → overhead ≤ 125000000
    → weight_per_second ≡ 1000000000000
    → length qs ≤ 3240
    → total_weight F D overhead qs ≤ normal_share weight_per_second
total_weight-le_normal_share F D overhead weight_per_second qs d light second few =
    grind (arith, total_weight-le F D overhead qs d, few, light, second)
