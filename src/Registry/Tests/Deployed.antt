-- ===== src/Registry/Tests/Deployed.antt =====
-- The theorems on the runtime of runtime/src/lib.rs, after a first commit.
use vantiy_name_registry.Base.{
  ◌*◌, ◌+◌, ◌-◌, ◌≤◌, ◌<◌, ◌^◌, ◌≡◌, refl, some, [], arith, ℕ_discrete, list_discrete,
}
use vantiy_name_registry.Base.Words.{wrapping_add}
use vantiy_name_registry.Frame.Assoc.{lookup, without, entries}
use vantiy_name_registry.Frame.Maps.{assoc_double_map, pair_discrete, prefix}
use vantiy_name_registry.Registry.{
  Config, LockPeriod, State, commit_call, dispatch, commit, num_of_commits, insert_commit,
  update_locked_fund,
}
use vantiy_name_registry.Registry.Counting.{commit_at}
use vantiy_name_registry.Registry.Funds.{lock_at}
use vantiy_name_registry.Registry.Blocks.{block_number-dispatch}
use vantiy_name_registry.Registry.Chain.{genesis, Reach, start, next, call}
use vantiy_name_registry.Registry.Chain.Cover.{lock_amount}
use vantiy_name_registry.Registry.Tests.Sample.{sample}
use vantiy_name_registry.Runtime.{
  fund_to_lock, register_period, millisecs_per_block, runtime_config,
}
use vantiy_name_registry.Runtime.Bounds.{fund_per_commit, commit_lives_seven_days}

abbrev R : Config
R = runtime_config sample

-- An account commits in block 0.
abbrev first_commit : State R
first_commit = (dispatch R (some 1) (commit_call []) (genesis R)).1

abbrev week : LockPeriod
week = record { begin = 0; end = 100800 }

first_commit-Reach : Reach R first_commit
first_commit-Reach = next start (call (some 1) (commit_call []) refl)

first_commit-num_of_commits : num_of_commits R 1 first_commit ≡ 1
unfolding dispatch commit insert_commit update_locked_fund num_of_commits genesis assoc_double_map
    lookup without entries pair_discrete prefix list_discrete ℕ_discrete
first_commit-num_of_commits = refl

first_commit-fits : first_commit.block_number + register_period < 2 ^ 32
unfolding genesis
first_commit-fits = omega (arith, block_number-dispatch R (some 1) (commit_call []) (genesis R))

first_commit-commit_at : commit_at R 1 [] first_commit ≡ some week
unfolding dispatch commit insert_commit update_locked_fund num_of_commits genesis assoc_double_map
    lookup without entries pair_discrete prefix list_discrete ℕ_discrete wrapping_add
first_commit-commit_at = refl

fund_per_commit_example :
    fund_to_lock * num_of_commits R 1 first_commit ≤ lock_amount R (lock_at R 1 first_commit)
fund_per_commit_example =
    fund_per_commit sample first_commit-Reach 1 (omega (arith, first_commit-num_of_commits))

commit_lives_seven_days_example :
    ((week.end - week.begin) * millisecs_per_block ≡ 7 * 24 * 60 * 60 * 1000)
    × (first_commit.block_number ≤ week.begin + register_period)
commit_lives_seven_days_example =
    commit_lives_seven_days sample first_commit-Reach first_commit-fits 1 [] week
      first_commit-commit_at
