-- ===== src/Weights/Charges.antt =====
-- What the weights of pallets/vanity-registry/src/weights.rs amount to.
use vantiy_name_registry.Base.{ℕ, ◌+◌, ◌-◌, ◌*◌, ◌≤◌, ◌<◌, ◌^◌, ◌≡◌, refl, arith}
use vantiy_name_registry.Base.Words.{saturating_add}
use vantiy_name_registry.Registry.{
  Config, Request, commit_call, reveal_call, renew_call, unregister_call,
}
use vantiy_name_registry.Frame.Runtimes.{DbWeight}
use vantiy_name_registry.Weights.{WeightInfo, substrate_weight, unit_weight, call_weight}

-- What a call does outside the database, and how often it reads and writes there.
abbrev pub base_weight : (T : Config) → Request T → ℕ
base_weight T (commit_call hash) = 57300000
base_weight T (reveal_call name) = 24625000
base_weight T (renew_call name) = 9000000
base_weight T (unregister_call name) = 62900000

abbrev pub read_count : (T : Config) → Request T → ℕ
read_count T (commit_call hash) = 3
read_count T (reveal_call name) = 2
read_count T (renew_call name) = 1
read_count T (unregister_call name) = 3

abbrev pub write_count : (T : Config) → Request T → ℕ
write_count T (commit_call hash) = 2
write_count T (reveal_call name) = 2
write_count T (renew_call name) = 1
write_count T (unregister_call name) = 2

-- Where a read and a write each weigh a fixed amount below 2 ^ 60, the weight of a call is the exact
-- sum of its base and of so many reads and writes, whatever the length of the name, and the two
-- implementations agree on it.
pub call_weight-exact :
    (T : Config) (D : DbWeight) (q : Request T) (read write : ℕ)
    → ((n : ℕ) → n ≤ 3 → D.reads n ≡ n * read)
    → ((n : ℕ) → n ≤ 3 → D.writes n ≡ n * write)
    → read < 2 ^ 60
    → write < 2 ^ 60
    → (call_weight T (substrate_weight D) q
        ≡ base_weight T q + read_count T q * read + write_count T q * write)
      × (call_weight T (unit_weight D) q ≡ call_weight T (substrate_weight D) q)
unfolding call_weight saturating_add
call_weight-exact T D (commit_call hash) read write hr hw lr lw =
    (omega (arith, hr 3 (omega arith), hw 2 (omega arith)), refl)
call_weight-exact T D (reveal_call name) read write hr hw lr lw =
    (omega (arith, hr 2 (omega arith), hw 2 (omega arith)), refl)
call_weight-exact T D (renew_call name) read write hr hw lr lw =
    (omega (arith, hr 1 (omega arith), hw 1 (omega arith)), refl)
call_weight-exact T D (unregister_call name) read write hr hw lr lw =
    (omega (arith, hr 3 (omega arith), hw 2 (omega arith)), refl)

-- The part of a call's weight that is charged for writes: what it would not weigh if writes were free.
abbrev pub weight_of_writes : (T : Config) → (DbWeight → WeightInfo) → DbWeight → Request T → ℕ
weight_of_writes T W D q =
    call_weight T (W D) q - call_weight T (W (record D { writes = λ _n. 0 })) q

pub weight_of_writes-exact :
    (T : Config) (D : DbWeight) (q : Request T) (read write : ℕ)
    → ((n : ℕ) → n ≤ 3 → D.reads n ≡ n * read)
    → ((n : ℕ) → n ≤ 3 → D.writes n ≡ n * write)
    → read < 2 ^ 60
    → write < 2 ^ 60
    → (weight_of_writes T substrate_weight D q ≡ write_count T q * write)
      × (weight_of_writes T unit_weight D q ≡ write_count T q * write)
weight_of_writes-exact T D q read write hr hw lr lw =
    let (all, same) = call_weight-exact T D q read write hr hw lr lw in
    let (free, same_free) =
      call_weight-exact T (record D { writes = λ _n. 0 }) q read 0 hr (λ n l. omega arith) lr
        (omega arith) in
    (omega (arith, all, free), omega (arith, all, free, same, same_free))
