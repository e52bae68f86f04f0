-- ===== src/Registry/Tests/Aged.antt =====
-- A name that is as old as the register period, under a configuration of
-- pallets/vanity-registry/src/mock.rs with a register period of two blocks.
use vantiy_name_registry.Base.Words.{wrapping_add, saturating_mul, saturated_into}
use vantiy_name_registry.Base.{
  ◌+◌, ◌≤◌, [], ◌∷◌, dec_le, list_discrete, ℕ_discrete, ◌≡◌, refl, some, List, arith,
}
use vantiy_name_registry.Registry.{
  Config, OwnerOf, State, hash_of, commit_call, reveal_call, dispatch, commit, insert_commit,
  num_of_commits, amount_to_lock, update_locked_fund, reveal, take_commit, insert_owner,
  remove_owner, expired_commits, remove_commit, expire_commit, expire_commits,
  remove_expired_commits, expired_names, free_name, free_names, remove_expired_names, on_finalize,
}
use vantiy_name_registry.Frame.Assoc.{lookup, without, entries}
use vantiy_name_registry.Frame.Maps.{assoc_map, assoc_double_map, pair_discrete, prefix, take_entry}
use vantiy_name_registry.Frame.Locks.{assoc_currency}
use vantiy_name_registry.Registry.Calls.{owner_at}
use vantiy_name_registry.Registry.Chain.{genesis, next_block, Reach, start, next, call, seal}
use vantiy_name_registry.Registry.Chain.Periods.{Fits}
use vantiy_name_registry.Registry.Chain.Waiting.{Move, call_of, run_moves}
use vantiy_name_registry.Registry.Chain.Renewal.{LeaveAlone}
use vantiy_name_registry.Registry.Chain.Aging.{aged-keeps}
use vantiy_name_registry.Registry.Tests.Sample.{T}
use vantiy_name_registry.Registry.Tests.Scenarios.{alice, bob, alice_name, not_alice}

abbrev S : Config
S = record T { register_period = 2 }

-- Alice commits in block 0, reveals in block 1, and waits for block 2.
abbrev in_block_two : State S
in_block_two =
    let c = (dispatch S (some alice) (commit_call (hash_of S alice alice_name)) (genesis S)).1 in
    next_block S (dispatch S (some alice) (reveal_call alice_name) (next_block S c)).1

abbrev old_owner : OwnerOf S
old_owner = record {
  id = alice;
  commit = hash_of S alice alice_name;
  lock_period = record { begin = 0; end = 2 };
}

in_block_two-Reach : Reach S in_block_two
in_block_two-Reach =
    next
      (next
        (next (next start (call (some alice) (commit_call (hash_of S alice alice_name)) refl))
          (seal refl))
        (call (some alice) (reveal_call alice_name) refl))
      (seal refl)

-- Bob reveals a name that he has not committed to, and commits to it.
abbrev bob_hurries : List (Move S)
bob_hurries =
    call_of (some bob) (reveal_call alice_name)
    ∷ call_of (some bob) (commit_call (hash_of S bob alice_name))
    ∷ []

bob_hurries-leaves : LeaveAlone S alice_name alice bob_hurries
bob_hurries-leaves = (λ e. absurd (not_alice e), (λ e. absurd (not_alice e), tt))

old_owner-owns : owner_at S alice_name in_block_two ≡ some old_owner
unfolding dispatch commit insert_commit hash_of update_locked_fund num_of_commits amount_to_lock
    genesis reveal take_commit insert_owner expired_commits remove_commit next_block expire_commit
    expire_commits remove_expired_commits expired_names free_name free_names remove_expired_names
    remove_owner on_finalize run_moves assoc_double_map assoc_map assoc_currency lookup without
    entries pair_discrete prefix take_entry list_discrete ℕ_discrete wrapping_add saturating_mul
    saturated_into dec_le
old_owner-owns = refl

in_block_two-Fits : Fits S in_block_two
unfolding dispatch commit insert_commit hash_of update_locked_fund num_of_commits amount_to_lock
    genesis reveal take_commit insert_owner expired_commits remove_commit next_block expire_commit
    expire_commits remove_expired_commits expired_names free_name free_names remove_expired_names
    remove_owner on_finalize run_moves assoc_double_map assoc_map assoc_currency lookup without
    entries pair_discrete prefix take_entry list_discrete ℕ_discrete wrapping_add saturating_mul
    saturated_into dec_le
in_block_two-Fits = omega arith

old_owner-aged : old_owner.lock_period.begin + S.register_period ≤ in_block_two.block_number
unfolding dispatch commit insert_commit hash_of update_locked_fund num_of_commits amount_to_lock
    genesis reveal take_commit insert_owner expired_commits remove_commit next_block expire_commit
    expire_commits remove_expired_commits expired_names free_name free_names remove_expired_names
    remove_owner on_finalize run_moves assoc_double_map assoc_map assoc_currency lookup without
    entries pair_discrete prefix take_entry list_discrete ℕ_discrete wrapping_add saturating_mul
    saturated_into dec_le
old_owner-aged = omega arith

bob_hurries-early : (run_moves S bob_hurries in_block_two).block_number ≤ old_owner.lock_period.end
unfolding dispatch commit insert_commit hash_of update_locked_fund num_of_commits amount_to_lock
    genesis reveal take_commit insert_owner expired_commits remove_commit next_block expire_commit
    expire_commits remove_expired_commits expired_names free_name free_names remove_expired_names
    remove_owner on_finalize run_moves assoc_double_map assoc_map assoc_currency lookup without
    entries pair_discrete prefix take_entry list_discrete ℕ_discrete wrapping_add saturating_mul
    saturated_into dec_le
bob_hurries-early = omega arith

aged-keeps_example : owner_at S alice_name (run_moves S bob_hurries in_block_two) ≡ some old_owner
aged-keeps_example =
    aged-keeps S bob_hurries alice_name old_owner in_block_two-Reach in_block_two-Fits
      old_owner-owns old_owner-aged bob_hurries-leaves bob_hurries-early
