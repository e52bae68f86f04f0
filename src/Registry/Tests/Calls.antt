-- ===== src/Registry/Tests/Calls.antt =====
-- The theorems on single calls, at the states of pallets/vanity-registry/src/tests.rs.
use mathlib.Core.List.{head-eq_of_cons-eq}
use vantiy_name_registry.Base.{ℕ, ◌≡◌, refl, sym, ◌∙◌, ap, ◌≢◌, ◌<◌, none, some, List, [], arith}
use vantiy_name_registry.Frame.Dispatch.{err, pallet_error}
use vantiy_name_registry.Registry.{
  Owner, State, hash_of, reveal_call, dispatch, reveal, unregister, insert_owner,
  update_locked_fund, num_of_commits, commit_not_found,
}
use vantiy_name_registry.Registry.Counting.{commit_at, num_of_commits-none}
use vantiy_name_registry.Registry.Entries.{owner_at-insert_owner_self, commit_at-insert_owner}
use vantiy_name_registry.Registry.Funds.{lock_at, fund_for, locks-update_locked_fund}
use vantiy_name_registry.Registry.Calls.{owner_at, new_period, reveal_unknown}
use vantiy_name_registry.Registry.Outcomes.{outcome, dispatch-outcome, dispatch-atomic}
use vantiy_name_registry.Registry.Names.{reveal-transfers, unregister-unlocks_all}
use vantiy_name_registry.Registry.Spec.{view, spec_dispatch}
use vantiy_name_registry.Registry.Spec.Refines.{seen, dispatch-refines}
use vantiy_name_registry.Registry.Chain.{genesis}
use vantiy_name_registry.Registry.Tests.Sample.{T}
use vantiy_name_registry.Registry.Tests.Scenarios.{
  alice, bob, alice_name, bob_name, empty_at, after_commit, T-IsFunded, alice_commit, bob-ne-alice,
}

dispatch-refines_example :
    seen T (dispatch T (some alice) (reveal_call alice_name) after_commit)
    ≡ spec_dispatch T (some alice) (reveal_call alice_name) (view T after_commit)
dispatch-refines_example =
    dispatch-refines T (some alice) (reveal_call alice_name) after_commit T-IsFunded

dispatch-outcome_example :
    (dispatch T (some alice) (reveal_call alice_name) after_commit).0
    ≡ outcome T alice (reveal_call alice_name) after_commit
dispatch-outcome_example =
    dispatch-outcome T (some alice) alice refl (reveal_call alice_name) after_commit

bob_refused :
    (dispatch T (some bob) (reveal_call alice_name) (empty_at 7)).0
    ≡ err (pallet_error commit_not_found)
unfolding dispatch genesis
bob_refused =
    ap (λ r. r.0)
      (reveal_unknown T (some bob) bob refl alice_name (empty_at 7)
        (T.lock_periods.get-empty bob (hash_of T bob alice_name)))

dispatch-atomic_example :
    (dispatch T (some bob) (reveal_call alice_name) (empty_at 7)).1 ≡ empty_at 7
dispatch-atomic_example =
    dispatch-atomic T (some bob) (reveal_call alice_name) (empty_at 7)
      (pallet_error commit_not_found) bob_refused

locks-update_locked_fund_example :
    (lock_at T alice (update_locked_fund T alice after_commit)
      ≡ fund_for T (num_of_commits T alice after_commit))
    × (lock_at T bob (update_locked_fund T alice after_commit) ≡ lock_at T bob after_commit)
locks-update_locked_fund_example =
    locks-update_locked_fund T alice T.module_id bob after_commit T-IsFunded
      (λ e. bob-ne-alice (sym (ap (λ x. x.1) e)))

-- Bob holds Alice's name by a commit of block 7, and Alice has committed to it in block 0.
abbrev bob_owner : Owner ℕ (List ℕ)
bob_owner = record {
  id = bob;
  commit = hash_of T bob alice_name;
  lock_period = record { begin = 7; end = 102 };
}

abbrev taken : State T
taken = insert_owner T alice_name bob_owner after_commit

bob_younger :
    (o : Owner ℕ (List ℕ)) → owner_at T alice_name taken ≡ some o → 0 < o.lock_period.begin
bob_younger o e = ground (arith, owner_at-insert_owner_self T alice_name bob_owner after_commit)

taken-commit :
    commit_at T alice (hash_of T alice alice_name) taken ≡ some (new_period T (genesis T))
taken-commit =
    commit_at-insert_owner T alice (hash_of T alice alice_name) alice_name bob_owner after_commit
    ∙ alice_commit

reveal-transfers_example :
    let t = (reveal T (some alice) alice_name taken).1 in
    (owner_at T alice_name t
      ≡ some (record {
        id = alice;
        commit = hash_of T alice alice_name;
        lock_period = new_period T (genesis T);
      }))
    × (commit_at T alice (hash_of T alice alice_name) t ≡ none)
    × ((a : ℕ) → lock_at T a t ≡ lock_at T a taken)
unfolding genesis
reveal-transfers_example =
    reveal-transfers T (some alice) alice alice_name (new_period T (genesis T)) taken refl
      taken-commit bob_younger

abbrev alice_owner : Owner ℕ (List ℕ)
alice_owner = record { id = alice; commit = []; lock_period = record { begin = 7; end = 102 } }

-- Alice owns two names and has no commit.
abbrev two_names : State T
two_names = insert_owner T alice_name alice_owner (insert_owner T bob_name alice_owner (empty_at 8))

two_names-num_of_commits : num_of_commits T alice two_names ≡ 0
unfolding insert_owner genesis
two_names-num_of_commits =
    num_of_commits-none T alice two_names (λ h. T.lock_periods.get-empty alice h)

names_differ : alice_name ≢ bob_name
names_differ = λ e. absurd (omega (arith, head-eq_of_cons-eq e))

unregister-unlocks_all_example :
    let t = (unregister T (some alice) alice_name two_names).1 in
    (lock_at T alice t ≡ none) × (owner_at T bob_name t ≡ owner_at T bob_name two_names)
unregister-unlocks_all_example =
    unregister-unlocks_all T (some alice) alice alice_name bob_name alice_owner two_names T-IsFunded
      refl
      (owner_at-insert_owner_self T alice_name alice_owner
        (insert_owner T bob_name alice_owner (empty_at 8)))
      refl names_differ two_names-num_of_commits
