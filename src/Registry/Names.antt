-- ===== src/Registry/Names.antt =====
-- The fund behind a name that has been revealed (pallets/vanity-registry/src/lib.rs).
use vantiy_name_registry.Base.{◌≡◌, refl, ap, ◌∙◌, ◌≢◌, ◌<◌, none, some}
use vantiy_name_registry.Registry.{
  Config, LockPeriod, OwnerOf, State, hash_of, reveal, unregister, remove_owner, insert_owner,
  deposit_event, remove_commit, num_of_commits, name_owned,
}
use vantiy_name_registry.Registry.Counting.{commit_at}
use vantiy_name_registry.Registry.Commits
use vantiy_name_registry.Registry.Funds.{IsFunded, lock_at, lock_for, lock_at-update_locked_fund}
use vantiy_name_registry.Registry.Entries.{
  owner_at-insert_owner_self, owner_at-remove_owner_ne, owner_at-update_locked_fund,
}
use vantiy_name_registry.Registry.Claims.{is_discredited_of_older}
use vantiy_name_registry.Registry.Calls.{owner_at, reveal_known, unregister_owned}

module _ (T : Config) (who : T.AccountId) (name : T.Name) (p : LockPeriod) (s : State T) where
  abbrev new_owner : OwnerOf T
  new_owner = record { id = who; commit = hash_of T who name; lock_period = p }

  abbrev won : State T
  won =
      deposit_event T (name_owned name who)
        (insert_owner T name new_owner (remove_commit T who (hash_of T who name) s))

  locks-won : won.locks ≡ s.locks
  unfolding insert_owner remove_commit
  locks-won = refl

  commit_at-won : commit_at T who (hash_of T who name) won ≡ none
  unfolding insert_owner remove_commit
  commit_at-won = T.lock_periods.get-remove_self who (hash_of T who name) s.lock_periods

-- A reveal whose commit is found, and began in an earlier block than the claim of the owner if the name has
-- one, turns the commit into the ownership of the name, and leaves the lock of every account as it was: that of
-- the one who reveals, and that of the owner who is displaced.
pub reveal-transfers :
    (T : Config) (origin : T.Origin) (who : T.AccountId) (name : T.Name) (p : LockPeriod)
    (s : State T)
    → T.ensure_signed origin ≡ some who
    → commit_at T who (hash_of T who name) s ≡ some p
    → ((o : OwnerOf T) → owner_at T name s ≡ some o → p.begin < o.lock_period.begin)
    → let t = (reveal T origin name s).1 in
      (owner_at T name t ≡ some (record { id = who; commit = hash_of T who name; lock_period = p }))
      × (commit_at T who (hash_of T who name) t ≡ none)
      × ((a : T.AccountId) → lock_at T a t ≡ lock_at T a s)
reveal-transfers T origin who name p s by e older =
    rw
      (
        reveal_known T origin who by name p s e,
        is_discredited_of_older T (owner_at T name s) p older,
      )
      (
        owner_at-insert_owner_self T name
            (record { id = who; commit = hash_of T who name; lock_period = p })
            (remove_commit T who (hash_of T who name) s),
        commit_at-won T who name p s,
        λ a. ap (T.currency.lock_of T.module_id a) (locks-won T who name p s),
      )

-- An account without pending commits that unregisters one of its names has no lock left, if the fund to
-- lock is not zero, and whoever owned another name still owns it, be it the same account.
pub unregister-unlocks_all :
    (T : Config) (origin : T.Origin) (who : T.AccountId) (name other : T.Name) (o : OwnerOf T)
    (s : State T)
    → IsFunded T
    → T.ensure_signed origin ≡ some who
    → owner_at T name s ≡ some o
    → o.id ≡ who
    → name ≢ other
    → num_of_commits T who s ≡ 0
    → let t = (unregister T origin name s).1 in
      (lock_at T who t ≡ none) × (owner_at T other t ≡ owner_at T other s)
unfolding remove_owner
unregister-unlocks_all T origin who name other o s v by e mine ne idle =
    let gone = remove_owner T name s in
    rw (unregister_owned T origin who by name o s e mine) (
      lock_at-update_locked_fund T who gone v
          ∙ ap (lock_for T) (Commits.num_of_commits_of_eq T who s gone refl ∙ idle),
      owner_at-update_locked_fund T who other gone ∙ owner_at-remove_owner_ne T name other s ne,
    )
