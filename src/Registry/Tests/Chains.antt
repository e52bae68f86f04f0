-- ===== src/Registry/Tests/Chains.antt =====
-- The theorems on chains and on the end of a block, at the states of the tests of expiry in
-- pallets/vanity-registry/src/tests.rs.
use mathlib.Core.List.{dec_mem}
use vantiy_name_registry.Base.{◌≤◌, ◌≡◌, refl, none, some, ◌++◌, map, ite}
use vantiy_name_registry.Registry.{
  hash_of, reveal_call, dispatch, num_of_commits, amount_to_lock, on_finalize, expired_commits,
  expired_names, commit_expired, name_freed,
}
use vantiy_name_registry.Registry.Counting.{commit_at}
use vantiy_name_registry.Registry.Funds.{lock_at, lock_for}
use vantiy_name_registry.Registry.Calls.{owner_at}
use vantiy_name_registry.Registry.Expiry.Commits.{unexpired}
use vantiy_name_registry.Registry.Expiry.Names.{still_owned}
use vantiy_name_registry.Registry.Expiry.Finalize.{
  on_finalize_expires, events-on_finalize, affected, lock_at-on_finalize,
}
use vantiy_name_registry.Registry.Chain.{next_block, next, call, seal}
use vantiy_name_registry.Registry.Chain.Periods.{IsWellFormed}
use vantiy_name_registry.Registry.Chain.Periods.Reached.{Reach-IsWellFormed}
use vantiy_name_registry.Registry.Chain.Cover.{Reach-IsCovered, lock_amount}
use vantiy_name_registry.Registry.Chain.Replay.{replay, owner_id, Reach-replay}
use vantiy_name_registry.Registry.Tests.Sample.{T}
use vantiy_name_registry.Registry.Tests.Scenarios.{
  alice, alice_name, after_commit, after_reveal, T-IsFunded, reached, after_commit-Fits,
}

Reach-IsWellFormed_example : IsWellFormed T after_commit
Reach-IsWellFormed_example = Reach-IsWellFormed T reached after_commit-Fits

Reach-IsCovered_example :
    amount_to_lock T (num_of_commits T alice after_commit)
    ≤ lock_amount T (lock_at T alice after_commit)
Reach-IsCovered_example = Reach-IsCovered T reached T-IsFunded alice

on_finalize_expires_example :
    (commit_at T alice (hash_of T alice alice_name) (on_finalize T 95 after_commit)
      ≡ unexpired 95 (commit_at T alice (hash_of T alice alice_name) after_commit))
    × (owner_at T alice_name (on_finalize T 95 after_commit)
        ≡ still_owned T 95 (owner_at T alice_name after_commit))
on_finalize_expires_example =
    on_finalize_expires T 95 after_commit alice (hash_of T alice alice_name) alice_name

lock_at-on_finalize_example :
    lock_at T alice (on_finalize T 95 after_commit)
    ≡ ite
        (dec_mem T.account_discrete alice (affected T 95 after_commit))
        (lock_for T (num_of_commits T alice (on_finalize T 95 after_commit)))
        (lock_at T alice after_commit)
lock_at-on_finalize_example = lock_at-on_finalize T 95 after_commit alice T-IsFunded

events-on_finalize_example :
    (on_finalize T 96 after_reveal).events
    ≡ after_reveal.events
      ++ (map (λ c. commit_expired c.1 c.0) (expired_commits T 96 after_reveal)
          ++ map (λ e. name_freed e.0) (expired_names T 96 after_reveal))
events-on_finalize_example = events-on_finalize T 96 after_reveal

-- Alice reveals in the block behind her commit.
Reach-replay_example :
    let t = (dispatch T (some alice) (reveal_call alice_name) (next_block T after_commit)).1 in
    replay T alice_name none t.events ≡ owner_id T (owner_at T alice_name t)
Reach-replay_example =
    Reach-replay T
      (next (next reached (seal refl)) (call (some alice) (reveal_call alice_name) refl)) alice_name
