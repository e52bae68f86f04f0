-- ===== src/Registry/Tests/Keeping.antt =====
-- A name over the end of a block, at the states of the front-running test of
-- pallets/vanity-registry/src/tests.rs.
use vantiy_name_registry.Base.Words.{wrapping_add, saturating_mul, saturated_into}
use vantiy_name_registry.Base.{
  ℕ, ◌≤◌, [], ◌∷◌, dec_le, list_discrete, ℕ_discrete, ◌≡◌, refl, some, List, arith,
}
use vantiy_name_registry.Registry.{
  Owner, hash_of, commit_call, reveal_call, dispatch, renew, ensure_owner, commit, insert_commit,
  num_of_commits, amount_to_lock, update_locked_fund, reveal, take_commit, insert_owner,
  remove_owner, expired_commits, remove_commit, expire_commit, expire_commits,
  remove_expired_commits, expired_names, free_name, free_names, remove_expired_names, on_finalize,
}
use vantiy_name_registry.Frame.Assoc.{lookup, without, entries}
use vantiy_name_registry.Frame.Maps.{assoc_map, assoc_double_map, pair_discrete, prefix, take_entry}
use vantiy_name_registry.Frame.Locks.{assoc_currency}
use vantiy_name_registry.Registry.Chain.{genesis, next_block}
use vantiy_name_registry.Registry.Chain.Waiting.{Move, call_of, end_of_block, run_moves}
use vantiy_name_registry.Registry.Chain.Renewal.{renew-keeps, LeaveAlone}
use vantiy_name_registry.Registry.Calls.{owner_at, new_end, new_period}
use vantiy_name_registry.Registry.Chain.Registration.{registered, register-keeps}
use vantiy_name_registry.Registry.Transitions.{revealed_owner}
use vantiy_name_registry.Registry.Tests.Sample.{T}
use vantiy_name_registry.Registry.Tests.Scenarios.{
  alice, bob, alice_name, after_reveal, alice-IsSafe, not_alice, empty_at, alice-IsFree,
  period_fits,
}

abbrev alice_owner : Owner ℕ (List ℕ)
alice_owner = record {
  id = alice;
  commit = hash_of T alice alice_name;
  lock_period = record { begin = 1; end = 96 };
}

alice_owns : owner_at T alice_name after_reveal ≡ some alice_owner
unfolding commit insert_commit hash_of update_locked_fund num_of_commits amount_to_lock genesis
    reveal take_commit insert_owner expired_commits remove_commit next_block expire_commit
    expire_commits remove_expired_commits expired_names free_name free_names remove_expired_names
    remove_owner on_finalize assoc_double_map assoc_map assoc_currency lookup without entries
    pair_discrete prefix take_entry list_discrete ℕ_discrete wrapping_add saturating_mul
    saturated_into dec_le
alice_owns = refl

-- Bob commits to the same name, waits a block, and reveals it.
abbrev bob_tries : List (Move T)
bob_tries =
    call_of (some bob) (commit_call (hash_of T bob alice_name))
    ∷ end_of_block
    ∷ call_of (some bob) (reveal_call alice_name)
    ∷ []

bob-leaves : LeaveAlone T alice_name alice bob_tries
bob-leaves = (λ e. absurd (not_alice e), (λ e. absurd (not_alice e), tt))

renewed_late :
    (run_moves T bob_tries (renew T (some alice) alice_name after_reveal).1).block_number
    ≤ new_end T after_reveal
unfolding run_moves dispatch renew ensure_owner commit insert_commit hash_of update_locked_fund
    num_of_commits amount_to_lock genesis reveal take_commit insert_owner expired_commits
    remove_commit next_block expire_commit expire_commits remove_expired_commits expired_names
    free_name free_names remove_expired_names remove_owner on_finalize assoc_double_map assoc_map
    assoc_currency lookup without entries pair_discrete prefix take_entry list_discrete ℕ_discrete
    wrapping_add saturating_mul saturated_into dec_le
renewed_late = omega arith

renew-keeps_example :
    owner_at T alice_name (run_moves T bob_tries (renew T (some alice) alice_name after_reveal).1)
    ≡ some (record alice_owner {
      lock_period = record { begin = alice_owner.lock_period.begin; end = new_end T after_reveal };
    })
renew-keeps_example =
    renew-keeps T bob_tries (some alice) alice_name alice_owner after_reveal alice_owns alice-IsSafe
      refl bob-leaves renewed_late

-- While Alice waits Bob commits, and a block passes; later a block passes and Bob reveals.
abbrev bob_commits : List (Move T)
bob_commits = call_of (some bob) (commit_call (hash_of T bob alice_name)) ∷ end_of_block ∷ []

abbrev bob_reveals : List (Move T)
bob_reveals = end_of_block ∷ call_of (some bob) (reveal_call alice_name) ∷ []

registered_early :
    (registered T bob_commits bob_reveals (some alice) alice_name alice (empty_at 1)).block_number
    ≤ new_end T (empty_at 1)
unfolding run_moves dispatch renew ensure_owner commit insert_commit hash_of update_locked_fund
    num_of_commits amount_to_lock genesis reveal take_commit insert_owner expired_commits
    remove_commit next_block expire_commit expire_commits remove_expired_commits expired_names
    free_name free_names remove_expired_names remove_owner on_finalize assoc_double_map assoc_map
    assoc_currency lookup without entries pair_discrete prefix take_entry list_discrete ℕ_discrete
    wrapping_add saturating_mul saturated_into dec_le
registered_early = omega arith

register-keeps_example :
    owner_at T alice_name
      (registered T bob_commits bob_reveals (some alice) alice_name alice (empty_at 1))
    ≡ some (revealed_owner T alice alice_name (new_period T (empty_at 1)))
register-keeps_example =
    register-keeps T bob_commits bob_reveals (some alice) alice_name alice (empty_at 1) alice-IsFree
      period_fits refl (not_alice, tt) (λ e. absurd (not_alice e), tt) registered_early
