-- ===== src/Registry/Tests/Scenarios.antt =====
-- The states of pallets/vanity-registry/src/tests.rs, and the facts about them that the theorems ask
-- for.
use vantiy_name_registry.Base.{
  ℕ, ◌<◌, ◌≡◌, refl, ◌≢◌, ◌∙◌, Option, some, List, [], ◌∷◌, arith, ℕ_discrete,
}
use vantiy_name_registry.Frame.Maps.{assoc_double_map}
use vantiy_name_registry.Base.Words.{wrapping_add}
use vantiy_name_registry.Registry.{
  State, hash_of, commit_call, dispatch, commit, reveal, insert_commit, update_locked_fund,
  num_of_commits,
}
use vantiy_name_registry.Registry.Counting.{commit_at}
use vantiy_name_registry.Registry.Commits
use vantiy_name_registry.Registry.Chain.Periods.{Fits}
use vantiy_name_registry.Registry.Funds.{IsFunded}
use vantiy_name_registry.Registry.Calls.{new_end, new_period}
use vantiy_name_registry.Registry.Claims.{IsSafe}
use vantiy_name_registry.Registry.FrontRunning.{IsFirst}
use vantiy_name_registry.Registry.FrontRunning.Wins.{reveal-IsSafe}
use vantiy_name_registry.Registry.Chain.{genesis, next_block, Reach, start, next, call}
use vantiy_name_registry.Registry.Chain.Protocol.{IsFree, committed, IsFirst-committed}
use vantiy_name_registry.Mock.{new_test_ext}
use vantiy_name_registry.Registry.Tests.Sample.{T, sample}

abbrev pub alice : ℕ
alice = 1

abbrev pub bob : ℕ
bob = 2

abbrev pub alice_name : List ℕ
alice_name = 65 ∷ 108 ∷ 105 ∷ 99 ∷ 101 ∷ []

abbrev pub bob_name : List ℕ
bob_name = 66 ∷ 111 ∷ 98 ∷ []

-- `System::set_block_number` on a state without entries.
abbrev pub empty_at : ℕ → State T
empty_at n = record (new_test_ext sample) { block_number = n }

-- Alice commits in block 0.
abbrev pub after_commit : State T
after_commit = (commit T (some alice) (hash_of T alice alice_name) (genesis T)).1

-- The next block of a chain in which Alice has committed in block 1.
abbrev pub block_two : State T
block_two = next_block T (committed T alice_name alice (empty_at 1))

-- There Alice reveals.
abbrev pub after_reveal : State T
after_reveal = (reveal T (some alice) alice_name block_two).1

pub bob-ne-alice : bob ≢ alice
bob-ne-alice = λ e. absurd (omega arith)

pub not_alice : ◌≢◌ {A = Option ℕ} (some bob) (some alice)
not_alice = λ e. bob-ne-alice (cc e)

pub T-IsFunded : IsFunded T
T-IsFunded = record { funded = omega arith; wide = omega arith }

pub alice-IsFree : IsFree T alice_name alice (empty_at 1)
unfolding genesis
alice-IsFree = record {
  unowned = T.owners.get-empty alice_name;
  unclaimed = λ x n. T.lock_periods.get-empty x (hash_of T x alice_name);
}

pub period_fits : (empty_at 1).block_number < new_end T (empty_at 1)
unfolding wrapping_add
period_fits = omega arith

pub alice-IsFirst : IsFirst T alice_name alice (new_period T (empty_at 1)) block_two
alice-IsFirst = IsFirst-committed T alice_name alice (empty_at 1) period_fits alice-IsFree

pub alice-IsSafe : IsSafe T alice_name alice 1 after_reveal
alice-IsSafe =
    reveal-IsSafe T (some alice) alice_name alice (new_period T (empty_at 1)) block_two refl
      alice-IsFirst

pub reached : Reach T after_commit
unfolding dispatch
reached = next start (call (some alice) (commit_call (hash_of T alice alice_name)) refl)

pub after_commit-Fits : Fits T after_commit
unfolding commit insert_commit update_locked_fund genesis num_of_commits assoc_double_map ℕ_discrete
after_commit-Fits = omega arith

pub alice_commit :
    commit_at T alice (hash_of T alice alice_name) after_commit ≡ some (new_period T (genesis T))
unfolding genesis commit update_locked_fund
alice_commit =
    Commits.commit_at-update_locked_fund T alice alice (hash_of T alice alice_name)
      (insert_commit T alice (hash_of T alice alice_name) (new_period T (genesis T)) (genesis T))
    ∙ Commits.commit_at-insert_commit_self T alice (hash_of T alice alice_name)
        (new_period T (genesis T)) (genesis T)
