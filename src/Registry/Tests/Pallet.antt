-- ===== src/Registry/Tests/Pallet.antt =====
-- The tests of pallets/vanity-registry/src/tests.rs on the model, under the names that they have there.
use vantiy_name_registry.Base.Words.{wrapping_add, saturating_mul, saturated_into}
use vantiy_name_registry.Base.{
  ℕ, dec_le, list_discrete, ℕ_discrete, ◌≡◌, refl, Option, none, some, List,
}
use vantiy_name_registry.Frame.Dispatch.{Result, ok, err, pallet_error}
use vantiy_name_registry.Registry.{
  State, hash_of, commit, insert_commit, num_of_commits, amount_to_lock, update_locked_fund, reveal,
  take_commit, insert_owner, renew, ensure_owner, unregister, remove_owner, expired_commits,
  remove_commit, expire_commit, expire_commits, remove_expired_commits, expired_names, free_name,
  free_names, remove_expired_names, on_finalize, commit_not_found,
}
use vantiy_name_registry.Frame.Assoc.{lookup, without, entries}
use vantiy_name_registry.Frame.Maps.{assoc_map, assoc_double_map, pair_discrete, prefix, take_entry}
use vantiy_name_registry.Frame.Locks.{assoc_currency}
use vantiy_name_registry.Registry.Chain.{genesis}
use vantiy_name_registry.Registry.Counting.{commit_at}
use vantiy_name_registry.Registry.Calls.{owner_at}
use vantiy_name_registry.Registry.Claims.{holder}
use vantiy_name_registry.Registry.Funds.{lock_at}
use vantiy_name_registry.Registry.Chain.Cover.{lock_amount}
use vantiy_name_registry.Registry.Tests.Sample.{T}
use vantiy_name_registry.Registry.Tests.Scenarios.{alice, bob, alice_name, bob_name, empty_at}

-- `System::set_block_number`.
abbrev at_block : ℕ → State T → State T
at_block n s = record s { block_number = n }

-- Commits and reveals by an account in a block.
abbrev committing : ℕ → ℕ → List ℕ → State T → State T
committing n who name s = (commit T (some who) (hash_of T who name) (at_block n s)).1

abbrev revealing : ℕ → ℕ → List ℕ → State T → State T
revealing n who name s = (reveal T (some who) name (at_block n s)).1

-- What is locked for Alice.
abbrev locked : State T → ℕ
locked s = lock_amount T (lock_at T alice s)

straight_forward_commit :
    commit_at T alice (hash_of T alice alice_name) (committing 7 alice alice_name (empty_at 0))
    ≡ some (record { begin = 7; end = 102 })
unfolding commit insert_commit hash_of update_locked_fund num_of_commits amount_to_lock genesis
    reveal take_commit insert_owner renew ensure_owner unregister remove_owner expired_commits
    remove_commit expire_commit expire_commits remove_expired_commits expired_names free_name
    free_names remove_expired_names on_finalize assoc_double_map assoc_map assoc_currency lookup
    without entries pair_discrete prefix take_entry list_discrete ℕ_discrete wrapping_add
    saturating_mul saturated_into dec_le
straight_forward_commit = refl

straight_forward_reveal :
    owner_at T alice_name
      (revealing 0 alice alice_name (committing 0 alice alice_name (empty_at 0)))
    ≡ some (record {
      id = alice;
      commit = hash_of T alice alice_name;
      lock_period = record { begin = 0; end = 95 };
    })
unfolding commit insert_commit hash_of update_locked_fund num_of_commits amount_to_lock genesis
    reveal take_commit insert_owner renew ensure_owner unregister remove_owner expired_commits
    remove_commit expire_commit expire_commits remove_expired_commits expired_names free_name
    free_names remove_expired_names on_finalize assoc_double_map assoc_map assoc_currency lookup
    without entries pair_discrete prefix take_entry list_discrete ℕ_discrete wrapping_add
    saturating_mul saturated_into dec_le
straight_forward_reveal = refl

straight_forward_renew :
    owner_at T alice_name
      (renew T
        (some alice)
        alice_name
        (at_block 9 (revealing 8 alice alice_name (committing 7 alice alice_name (empty_at 0))))).1
    ≡ some (record {
      id = alice;
      commit = hash_of T alice alice_name;
      lock_period = record { begin = 7; end = 104 };
    })
unfolding commit insert_commit hash_of update_locked_fund num_of_commits amount_to_lock genesis
    reveal take_commit insert_owner renew ensure_owner unregister remove_owner expired_commits
    remove_commit expire_commit expire_commits remove_expired_commits expired_names free_name
    free_names remove_expired_names on_finalize assoc_double_map assoc_map assoc_currency lookup
    without entries pair_discrete prefix take_entry list_discrete ℕ_discrete wrapping_add
    saturating_mul saturated_into dec_le
straight_forward_renew = refl

straight_forward_unregister :
    let s =
      (unregister T (some alice) alice_name (
        at_block 9
          (revealing 8 alice alice_name (committing 7 alice alice_name (empty_at 0))))).1 in
    ◌≡◌ {A = Option (ℕ × ℕ) × ℕ} (holder T (owner_at T alice_name s), locked s) (none, 0)
unfolding commit insert_commit hash_of update_locked_fund num_of_commits amount_to_lock genesis
    reveal take_commit insert_owner renew ensure_owner unregister remove_owner expired_commits
    remove_commit expire_commit expire_commits remove_expired_commits expired_names free_name
    free_names remove_expired_names on_finalize assoc_double_map assoc_map assoc_currency lookup
    without entries pair_discrete prefix take_entry list_discrete ℕ_discrete wrapping_add
    saturating_mul saturated_into dec_le
straight_forward_unregister = refl

fund_lock_increase_with_more_commits :
    locked (committing 0 alice bob_name (committing 0 alice alice_name (empty_at 0))) ≡ 114
unfolding commit insert_commit hash_of update_locked_fund num_of_commits amount_to_lock genesis
    reveal take_commit insert_owner renew ensure_owner unregister remove_owner expired_commits
    remove_commit expire_commit expire_commits remove_expired_commits expired_names free_name
    free_names remove_expired_names on_finalize assoc_double_map assoc_map assoc_currency lookup
    without entries pair_discrete prefix take_entry list_discrete ℕ_discrete wrapping_add
    saturating_mul saturated_into dec_le
fund_lock_increase_with_more_commits = refl

fund_lock_decrease_with_expiry :
    let s =
      on_finalize T 102
        (committing 8 alice bob_name (committing 7 alice alice_name (empty_at 0))) in
    ◌≡◌ {A = ℕ × ℕ} (locked s, locked (on_finalize T 103 s)) (57, 0)
unfolding commit insert_commit hash_of update_locked_fund num_of_commits amount_to_lock genesis
    reveal take_commit insert_owner renew ensure_owner unregister remove_owner expired_commits
    remove_commit expire_commit expire_commits remove_expired_commits expired_names free_name
    free_names remove_expired_names on_finalize assoc_double_map assoc_map assoc_currency lookup
    without entries pair_discrete prefix take_entry list_discrete ℕ_discrete wrapping_add
    saturating_mul saturated_into dec_le
fund_lock_decrease_with_expiry = refl

revealing_non_owning_name_fails :
    (reveal T
      (some bob)
      alice_name
      (commit T (some bob) (hash_of T alice alice_name) (empty_at 0)).1).0
    ≡ err (pallet_error commit_not_found)
unfolding commit insert_commit hash_of update_locked_fund num_of_commits amount_to_lock genesis
    reveal take_commit insert_owner renew ensure_owner unregister remove_owner expired_commits
    remove_commit expire_commit expire_commits remove_expired_commits expired_names free_name
    free_names remove_expired_names on_finalize assoc_double_map assoc_map assoc_currency lookup
    without entries pair_discrete prefix take_entry list_discrete ℕ_discrete wrapping_add
    saturating_mul saturated_into dec_le
revealing_non_owning_name_fails = refl

front_running_is_revertible :
    holder T (
      owner_at T alice_name (
        revealing 2 alice alice_name (
          revealing 2 bob alice_name
            (committing 2 bob alice_name (committing 1 alice alice_name (empty_at 0))))))
    ≡ some (alice, 1)
unfolding commit insert_commit hash_of update_locked_fund num_of_commits amount_to_lock genesis
    reveal take_commit insert_owner renew ensure_owner unregister remove_owner expired_commits
    remove_commit expire_commit expire_commits remove_expired_commits expired_names free_name
    free_names remove_expired_names on_finalize assoc_double_map assoc_map assoc_currency lookup
    without entries pair_discrete prefix take_entry list_discrete ℕ_discrete wrapping_add
    saturating_mul saturated_into dec_le
front_running_is_revertible = refl

revealing_an_already_taken_name :
    let r = reveal T (some bob) alice_name (
      at_block 4 (
        committing 3 bob alice_name
          (revealing 2 alice alice_name (committing 1 alice alice_name (empty_at 0))))) in
    ◌≡◌ {A = Result _ (Unit {0}) × Option (ℕ × ℕ)}
      (r.0, holder T (owner_at T alice_name r.1))
      (ok tt, some (alice, 1))
unfolding commit insert_commit hash_of update_locked_fund num_of_commits amount_to_lock genesis
    reveal take_commit insert_owner renew ensure_owner unregister remove_owner expired_commits
    remove_commit expire_commit expire_commits remove_expired_commits expired_names free_name
    free_names remove_expired_names on_finalize assoc_double_map assoc_map assoc_currency lookup
    without entries pair_discrete prefix take_entry list_discrete ℕ_discrete wrapping_add
    saturating_mul saturated_into dec_le
revealing_an_already_taken_name = refl
