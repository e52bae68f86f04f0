-- ===== src/Runtime/Bounds.antt =====
-- The registry under the constants of runtime/src/lib.rs: what is locked, and how long a commit
-- lives.
use vantiy_name_registry.Base.{ℕ, ◌+◌, ◌-◌, ◌*◌, ◌≤◌, ◌<◌, ◌^◌, ◌≡◌, some, arith}
use vantiy_name_registry.Registry.{LockPeriod, State, amount_to_lock, num_of_commits}
use vantiy_name_registry.Registry.Framework.{Framework}
use vantiy_name_registry.Registry.Counting.{commit_at}
use vantiy_name_registry.Registry.Funds.{IsFunded, lock_at, amount_to_lock-eq}
use vantiy_name_registry.Registry.Chain.{Reach}
use vantiy_name_registry.Registry.Chain.Periods.Reached.{Reach-IsWellFormed}
use vantiy_name_registry.Registry.Chain.Cover.{Reach-IsCovered, lock_amount}
use vantiy_name_registry.Runtime.{
  millisecs_per_block, register_period, fund_to_lock, runtime_config,
}

pub runtime_config-IsFunded : (F : Framework) → IsFunded (runtime_config F)
runtime_config-IsFunded F = record { funded = omega arith; wide = omega arith }

amount_to_lock-exact :
    (F : Framework) (n : ℕ) → n < 2 ^ 120 → amount_to_lock (runtime_config F) n ≡ fund_to_lock * n
amount_to_lock-exact F n h = amount_to_lock-eq (runtime_config F) n (omega arith) (omega arith)

-- In every state that a chain of the runtime reaches, an account with up to 2 ^ 120 pending commits has
-- at least 113 units locked for each of them: the product does not saturate.
pub fund_per_commit :
    (F : Framework) {s : State (runtime_config F)}
    → Reach (runtime_config F) s
    → (a : F.AccountId) → num_of_commits (runtime_config F) a s < 2 ^ 120
    → fund_to_lock * num_of_commits (runtime_config F) a s
      ≤ lock_amount (runtime_config F) (lock_at (runtime_config F) a s)
fund_per_commit F {s} r a h = omega (
  arith,
  Reach-IsCovered (runtime_config F) r (runtime_config-IsFunded F) a,
  amount_to_lock-exact F (num_of_commits (runtime_config F) a s) h,
)

-- In every state that a chain of the runtime reaches before its block numbers come within a register
-- period of wrapping, a pending commit lives for seven days of blocks at the target block time, and it
-- was made within the last seven days.
pub commit_lives_seven_days :
    (F : Framework) {s : State (runtime_config F)}
    → Reach (runtime_config F) s
    → s.block_number + register_period < 2 ^ 32
    → (a : F.AccountId) (h : F.Hash) (p : LockPeriod) → commit_at (runtime_config F) a h s ≡ some p
    → ((p.end - p.begin) * millisecs_per_block ≡ 7 * 24 * 60 * 60 * 1000)
      × (s.block_number ≤ p.begin + register_period)
commit_lives_seven_days F {s} r f a h p e =
    let w = Reach-IsWellFormed (runtime_config F) r f in
    let exact = w.commits_exact a h p e in
    let current = w.commits_current a h p e in
    (omega (arith, exact), omega (arith, exact, current.open_yet))
