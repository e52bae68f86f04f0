-- ===== src/Registry/Calls.antt =====
-- Each dispatchable call of pallets/vanity-registry/src/lib.rs as an equation for each of its paths.
use vantiy_name_registry.Base.{ℕ, ◌≡◌, ◌≢◌, Option, none, some, arith, if◌then◌else◌}
use vantiy_name_registry.Base.Words.{wrapping_add}
use vantiy_name_registry.Frame.Dispatch.{pallet_error, ok, err}
use vantiy_name_registry.Registry.{
  Config, LockPeriod, OwnerOf, name_not_found, name_not_owned, commit_not_found, name_owned,
  name_freed, reveal_discredited, State, deposit_event, hash_of, update_locked_fund, ensure_owner,
  insert_commit, take_commit, remove_commit, insert_owner, remove_owner, is_discredited, commit,
  reveal, renew, unregister,
}

module _ (T : Config) where
  abbrev pub owner_at : T.Name → State T → Option (OwnerOf T)
  owner_at name s = T.owners.get name s.owners

  -- The period of a commit or of a renewal that is made in the state's block.
  abbrev pub new_end : State T → ℕ
  new_end s = wrapping_add T.block_number_bits s.block_number T.register_period

  abbrev pub new_period : State T → LockPeriod
  new_period s = record { begin = s.block_number; end = new_end s }

  -- The state after a reveal that found its commit with the period `p`.
  abbrev pub reveal_found : T.AccountId → T.Name → LockPeriod → State T → State T
  reveal_found who name p s =
      let taken = remove_commit T who (hash_of T who name) s in
      if is_discredited T (owner_at name s) p
      then deposit_event T (reveal_discredited name who) (update_locked_fund T who taken)
      else deposit_event T (name_owned name who) (
          insert_owner T name (record { id = who; commit = hash_of T who name; lock_period = p })
            taken)

-- The origin is signed by `who`.
module _ (T : Config) (origin : T.Origin) (who : T.AccountId)
    (by : T.ensure_signed origin ≡ some who) where
  pub commit_lem :
      (hash : T.Hash) (s : State T)
      → commit T origin hash s
        ≡ (ok tt, update_locked_fund T who (insert_commit T who hash (new_period T s) s))
  unfolding commit
  commit_lem hash s = ground arith

  pub reveal_unknown :
      (name : T.Name) (s : State T)
      → T.lock_periods.get who (hash_of T who name) s.lock_periods ≡ none
      → reveal T origin name s ≡ (err (pallet_error commit_not_found), s)
  unfolding reveal take_commit
  reveal_unknown name s e =
      ground (arith, T.lock_periods.take_none who (hash_of T who name) s.lock_periods e)

  pub reveal_known :
      (name : T.Name) (p : LockPeriod) (s : State T)
      → T.lock_periods.get who (hash_of T who name) s.lock_periods ≡ some p
      → reveal T origin name s ≡ (ok tt, reveal_found T who name p s)
  unfolding reveal take_commit remove_commit insert_owner
  reveal_known name p s e =
      ground (arith, T.lock_periods.take_some who (hash_of T who name) p s.lock_periods e)

  pub renew_owned :
      (name : T.Name) (o : OwnerOf T) (s : State T)
      → owner_at T name s ≡ some o
      → o.id ≡ who
      → renew T origin name s ≡ (
        ok tt,
        insert_owner T name
            (record o { lock_period = record { begin = o.lock_period.begin; end = new_end T s } })
            s,
      )
  unfolding renew ensure_owner
  renew_owned name o s e q = ground arith

  pub renew_not_owned :
      (name : T.Name) (o : OwnerOf T) (s : State T)
      → owner_at T name s ≡ some o
      → o.id ≢ who
      → renew T origin name s ≡ (err (pallet_error name_not_owned), s)
  unfolding renew ensure_owner
  renew_not_owned name o s e q = ground arith

  pub renew_not_found :
      (name : T.Name) (s : State T)
      → owner_at T name s ≡ none
      → renew T origin name s ≡ (err (pallet_error name_not_found), s)
  unfolding renew ensure_owner
  renew_not_found name s e = ground arith

  pub unregister_owned :
      (name : T.Name) (o : OwnerOf T) (s : State T)
      → owner_at T name s ≡ some o
      → o.id ≡ who
      → unregister T origin name s ≡ (
        ok tt,
        deposit_event T (name_freed name) (update_locked_fund T who (remove_owner T name s)),
      )
  unfolding unregister ensure_owner
  unregister_owned name o s e q = ground arith

  pub unregister_not_owned :
      (name : T.Name) (o : OwnerOf T) (s : State T)
      → owner_at T name s ≡ some o
      → o.id ≢ who
      → unregister T origin name s ≡ (err (pallet_error name_not_owned), s)
  unfolding unregister ensure_owner
  unregister_not_owned name o s e q = ground arith

  pub unregister_not_found :
      (name : T.Name) (s : State T)
      → owner_at T name s ≡ none
      → unregister T origin name s ≡ (err (pallet_error name_not_found), s)
  unfolding unregister ensure_owner
  unregister_not_found name s e = ground arith
