-- ===== src/Registry/Tests/Cycles.antt =====
-- Alice's name from its commit to its end, by `unregister` and by expiry
-- (pallets/vanity-registry/src/lib.rs).
use vantiy_name_registry.Base.{suc, ◌≡◌, refl, ap, sym, ◌∙◌, none, some, [], ◌∷◌, ◌++◌}
use vantiy_name_registry.Frame.Maps.{assoc_double_map, prefix}
use vantiy_name_registry.Frame.Assoc.{lookup, entries}
use vantiy_name_registry.Frame.Locks.{assoc_currency}
use vantiy_name_registry.Frame.Dispatch.{ok}
use vantiy_name_registry.Registry.{
  hash_of, commit_call, reveal_call, unregister_call, dispatch, num_of_commits, name_owned,
  name_freed, commit, insert_commit,
}
use vantiy_name_registry.Registry.Counting.{commit_at}
use vantiy_name_registry.Registry.Commits
use vantiy_name_registry.Registry.Calls.{owner_at, new_period}
use vantiy_name_registry.Registry.Funds.{lock_at, lock_for, lock_at-update_locked_fund}
use vantiy_name_registry.Registry.Spec.{view}
use vantiy_name_registry.Registry.Spec.Lifecycle.{register-unregister}
use vantiy_name_registry.Registry.Chain.{genesis}
use vantiy_name_registry.Registry.Chain.Idle.{
  IsSettledFor, end_blocks, end_blocks-clears, end_blocks-unlocks,
}
use vantiy_name_registry.Registry.Chain.Periods.Reached.{Reach-IsWellFormed}
use vantiy_name_registry.Registry.Tests.Sample.{T}
use vantiy_name_registry.Registry.Tests.Scenarios.{
  alice, alice_name, empty_at, after_commit, T-IsFunded, reached, after_commit-Fits,
}

empty-settled : lock_at T alice (empty_at 7) ≡ lock_for T (num_of_commits T alice (empty_at 7))
unfolding genesis num_of_commits assoc_double_map assoc_currency prefix entries lookup
empty-settled = refl

register-unregister_example :
    let c = dispatch T (some alice) (commit_call (hash_of T alice alice_name)) (empty_at 7) in
    let r = dispatch T (some alice) (reveal_call alice_name) c.1 in
    let u = dispatch T (some alice) (unregister_call alice_name) r.1 in
    (c.0 ≡ ok tt)
    × (r.0 ≡ ok tt)
    × (u.0 ≡ ok tt)
    × (view T u.1 ≡ record (view T (empty_at 7)) {
      events =
          ((empty_at 7).events ++ name_owned alice_name alice ∷ []) ++ name_freed alice_name ∷ [];
    })
unfolding genesis
register-unregister_example =
    register-unregister T (some alice) alice alice_name (empty_at 7) T-IsFunded refl
      (T.owners.get-empty alice_name) (T.lock_periods.get-empty alice (hash_of T alice alice_name))
      empty-settled

after_commit-settled : IsSettledFor T alice after_commit
unfolding commit
after_commit-settled =
    let h = hash_of T alice alice_name in
    let inserted = insert_commit T alice h (new_period T (genesis T)) (genesis T) in
    lock_at-update_locked_fund T alice inserted T-IsFunded
    ∙ ap (lock_for T) (sym (Commits.num_of_commits-update_locked_fund T alice alice inserted))

end_blocks-clears_example :
    let t = end_blocks T (suc T.register_period) after_commit in
    (commit_at T alice (hash_of T alice alice_name) t ≡ none)
    × (owner_at T alice_name t ≡ none)
    × (num_of_commits T alice t ≡ 0)
end_blocks-clears_example =
    end_blocks-clears T after_commit alice (hash_of T alice alice_name) alice_name
      (Reach-IsWellFormed T reached after_commit-Fits)

end_blocks-unlocks_example :
    lock_at T alice (end_blocks T (suc T.register_period) after_commit) ≡ none
end_blocks-unlocks_example =
    end_blocks-unlocks T after_commit alice T-IsFunded
      (Reach-IsWellFormed T reached after_commit-Fits) after_commit-settled
