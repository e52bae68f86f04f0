-- ===== src/Runtime/Fees.antt =====
-- What a call of the registry costs under the fees that runtime/src/lib.rs configures.
use vantiy_name_registry.Base.{ℕ, zero, suc, ◌+◌, ◌*◌, ◌/◌, ◌^◌, ◌<◌, ◌≤◌, ◌≡◌, ◌∙◌, arith}
use vantiy_name_registry.Base.Words.{saturated_into}
use vantiy_name_registry.Frame.Runtimes.{DbWeight}
use vantiy_name_registry.Frame.Configs.{Primitives, TransactionPaymentConfig}
use vantiy_name_registry.Registry.{Request, commit_call, reveal_call, renew_call, unregister_call}
use vantiy_name_registry.Registry.Framework.{Framework}
use vantiy_name_registry.Weights.{unit_weight, call_weight}
use vantiy_name_registry.Weights.Charges.{base_weight, read_count, write_count, call_weight-exact}
use vantiy_name_registry.Runtime.{balance_bits, transaction_byte_fee, runtime_config}
use vantiy_name_registry.Runtime.Pallets.{transaction_payment_config}

-- `pallet_transaction_payment`: the fee of an extrinsic of some bytes and some weight, at a multiplier.
pub record Payment (P : Primitives) : Type 0 where
  pub overhead : ℕ
  pub compute_fee : TransactionPaymentConfig P → (multiplier : ℕ) → (len : ℕ) → (weight : ℕ) → ℕ

-- As the framework documents it: without a tip the fee is the fee of the overhead, a fee for each byte, and
-- the fee of the weight times the multiplier, of which 10 ^ 18 is one, while they fit a balance.
pub record IsDocumented (P : Primitives) (M : Payment P) : Type 0 where
  pub fee-eq :
      (C : TransactionPaymentConfig P) (multiplier len weight : ℕ)
      → let fee =
          C.weight_to_fee M.overhead
          + C.transaction_byte_fee * len
          + multiplier * C.weight_to_fee weight / 1000000000000000000 in
        fee < 2 ^ balance_bits → M.compute_fee C multiplier len weight ≡ fee
  pub overhead-le : M.overhead < 2 ^ 64

-- The multiplier is one at the genesis, and is updated at the end of each block.
pub multiplier_after : {P : Primitives} → TransactionPaymentConfig P → (blocks : ℕ) → ℕ
multiplier_after C zero = 1000000000000000000
multiplier_after C (suc n) = C.fee_multiplier_update (multiplier_after C n)

module _ (P : Primitives) (M : Payment P) (documented : IsDocumented P M) where
  abbrev C : TransactionPaymentConfig P
  C = transaction_payment_config P

  saturated_into-eq : (n : ℕ) → n < 2 ^ 70 → saturated_into balance_bits n ≡ n
  unfolding saturated_into
  saturated_into-eq n h = omega arith

  overhead-eq : saturated_into balance_bits M.overhead ≡ M.overhead
  overhead-eq = saturated_into-eq M.overhead (omega (arith, documented.overhead-le))

  -- The fee at a multiplier of one.
  first-formula :
      (len w : ℕ)
      → w < 2 ^ 70
      → saturated_into balance_bits M.overhead
          + transaction_byte_fee * len
          + 1000000000000000000 * saturated_into balance_bits w / 1000000000000000000
        ≡ M.overhead + len + w
  first-formula len w h = rw (overhead-eq, saturated_into-eq w h) (omega arith)

  first-fee :
      (len w : ℕ)
      → len < 2 ^ 32
      → w < 2 ^ 70
      → M.compute_fee C (multiplier_after C 0) len w ≡ M.overhead + len + w
  unfolding multiplier_after
  first-fee len w hl hw =
      documented.fee-eq C 1000000000000000000 len w
        (omega (arith, first-formula len w hw, documented.overhead-le))
      ∙ first-formula len w hw

  -- The fee at a multiplier of zero.
  later-formula :
      (len w : ℕ)
      → saturated_into balance_bits M.overhead
          + transaction_byte_fee * len
          + 0 * saturated_into balance_bits w / 1000000000000000000
        ≡ M.overhead + len
  later-formula len w = rw overhead-eq (omega arith)

  later-fee :
      (blocks len w : ℕ)
      → len < 2 ^ 32
      → M.compute_fee C (multiplier_after C (suc blocks)) len w ≡ M.overhead + len
  unfolding multiplier_after
  later-fee blocks len w hl =
      documented.fee-eq C 0 len w (omega (arith, later-formula len w, documented.overhead-le))
      ∙ later-formula len w

-- Every call's weight fits.
weight-lt :
    (F : Framework) (q : Request (runtime_config F)) (read write : ℕ)
    → read < 2 ^ 60
    → write < 2 ^ 60
    → base_weight (runtime_config F) q
        + read_count (runtime_config F) q * read
        + write_count (runtime_config F) q * write
      < 2 ^ 70
weight-lt F (commit_call hash) read write lr lw = omega arith
weight-lt F (reveal_call name) read write lr lw = omega arith
weight-lt F (renew_call name) read write lr lw = omega arith
weight-lt F (unregister_call name) read write lr lw = omega arith

-- Under fees as documented, and where a read and a write of the database weigh fixed amounts below
-- 2 ^ 60, a call of the registry in an extrinsic of less than 2 ^ 32 bytes costs the overhead, one unit for
-- each byte, and its weight as long as no block has ended; when one block or more have ended it costs the
-- overhead and the bytes alone, whatever it weighs.
pub call-fee :
    (F : Framework) (P : Primitives) (M : Payment P) (D : DbWeight) (q : Request (runtime_config F))
    (blocks len read write : ℕ)
    → IsDocumented P M
    → ((n : ℕ) → n ≤ 3 → D.reads n ≡ n * read)
    → ((n : ℕ) → n ≤ 3 → D.writes n ≡ n * write)
    → read < 2 ^ 60
    → write < 2 ^ 60
    → len < 2 ^ 32
    → let fee : ℕ → ℕ = λ ended.
      M.compute_fee
        (transaction_payment_config P)
        (multiplier_after (transaction_payment_config P) ended)
        len
        (call_weight (runtime_config F) (unit_weight D) q) in
      (fee 0
        ≡ M.overhead
          + len
          + (base_weight (runtime_config F) q
              + read_count (runtime_config F) q * read
              + write_count (runtime_config F) q * write))
      × (fee (suc blocks) ≡ M.overhead + len)
call-fee F P M D q blocks len read write documented hr hw lr lw hl =
    let w = call_weight (runtime_config F) (unit_weight D) q in
    let (exact, same) = call_weight-exact (runtime_config F) D q read write hr hw lr lw in
    let first =
      first-fee P M documented len w hl
        (omega (arith, exact, same, weight-lt F q read write lr lw)) in
    (omega (arith, first, exact, same), later-fee P M documented blocks len w hl)
