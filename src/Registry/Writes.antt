-- ===== src/Registry/Writes.antt =====
-- How often the calls and the hook of pallets/vanity-registry/src/lib.rs write to storage, against the
-- writes that pallets/vanity-registry/src/weights.rs charges for. The deposit of an event is not counted, as it
-- is not there.
pub mod Finalize
pub mod Erasure
use vantiy_name_registry.Base.{
  ℕ, suc, ◌+◌, ◌*◌, ◌≡◌, refl, ap, inl, inr, none, some, arith, Bool-cases, Option-cases, ltb,
  if◌then◌else◌,
}
use vantiy_name_registry.Frame.Dispatch.{DispatchError, bad_origin, pallet_error, Result, ok, err}
use vantiy_name_registry.Frame.Counted.{counted_map, counted_double_map, counted_currency}
use vantiy_name_registry.Registry.{
  Config, Error, LockPeriod, OwnerOf, State, Request, commit_call, reveal_call, renew_call,
  unregister_call, dispatch, commit, reveal, renew, unregister, deposit_event, name_freed,
  name_not_found, name_not_owned, commit_not_found, hash_of, num_of_commits, update_locked_fund,
  insert_commit, remove_commit, insert_owner, remove_owner, is_discredited,
}
use vantiy_name_registry.Registry.Counting.{commit_at}
use vantiy_name_registry.Registry.Calls.{
  owner_at, new_end, new_period, reveal_found, commit_lem, reveal_unknown, reveal_known,
  renew_owned, renew_not_owned, renew_not_found, unregister_owned, unregister_not_owned,
  unregister_not_found,
}
use vantiy_name_registry.Registry.Transitions.{
  Transition, commit_made, name_claimed, reveal_lost, name_renewed, name_given_up, revealed_owner,
  renewed_owner, dispatch-cases,
}
use vantiy_name_registry.Weights.Charges.{write_count}

-- The configuration with storage that counts its writes.
abbrev pub counted : Config → Config
counted T = record T {
  lock_periods = counted_double_map T.lock_periods;
  owners = counted_map T.owners;
  currency = counted_currency T.currency;
}

module _ (T : Config) where
  abbrev pub writes : State (counted T) → ℕ
  writes s = s.lock_periods.1 + s.owners.1 + s.locks.1

  pub writes-update_locked_fund :
      (id : T.AccountId) (s : State (counted T))
      → writes (update_locked_fund (counted T) id s) ≡ suc (writes s)
  unfolding update_locked_fund
  writes-update_locked_fund id s = elim (Bool-cases (ltb 0 (num_of_commits (counted T) id s))) [
    | inl h ↦ rw h (omega arith)
    | inr h ↦ rw h (omega arith)
  ]

  pub writes-remove_commit :
      (id : T.AccountId) (hash : T.Hash) (s : State (counted T))
      → writes (remove_commit (counted T) id hash s) ≡ suc (writes s)
  unfolding remove_commit
  writes-remove_commit id hash s = omega arith

  writes-insert_commit :
      (id : T.AccountId) (hash : T.Hash) (p : LockPeriod) (s : State (counted T))
      → writes (insert_commit (counted T) id hash p s) ≡ suc (writes s)
  unfolding insert_commit
  writes-insert_commit id hash p s = omega arith

  writes-insert_owner :
      (name : T.Name) (o : OwnerOf T) (s : State (counted T))
      → writes (insert_owner (counted T) name o s) ≡ suc (writes s)
  unfolding insert_owner
  writes-insert_owner name o s = omega arith

  pub writes-remove_owner :
      (name : T.Name) (s : State (counted T))
      → writes (remove_owner (counted T) name s) ≡ suc (writes s)
  unfolding remove_owner
  writes-remove_owner name s = omega arith

  -- What a call is charged for that ends in this way.
  abbrev pub charged : Result Error (Unit {0}) → ℕ → ℕ
  charged (ok _) n = n
  charged (err _) n = 0

-- What each of the pallet's writes counts for.
ruleset write_counts = (
  arith, writes-update_locked_fund, writes-insert_commit, writes-remove_commit, writes-insert_owner,
  writes-remove_owner,
)

-- Every transition writes as often as its call is charged for.
writes-Transition :
    (T : Config) (who : T.AccountId) (s t : State (counted T)) (q : Request (counted T))
    → Transition (counted T) who s t q
    → writes T t ≡ write_count (counted T) q + writes T s
writes-Transition T who s t (commit_call hash) (commit_made e) = rw e (grind write_counts)
writes-Transition T who s t (reveal_call name) (name_claimed c d e) = rw e (grind write_counts)
writes-Transition T who s t (reveal_call name) (reveal_lost c d e) = rw e (grind write_counts)
writes-Transition T who s t (renew_call name) (name_renewed c d e) = rw e (grind write_counts)
writes-Transition T who s t (unregister_call name) (name_given_up c d e) = rw e (grind write_counts)

pub writes-dispatch :
    (T : Config) (origin : T.Origin) (q : Request (counted T)) (s : State (counted T))
    → let r = dispatch (counted T) origin q s in
      writes T r.1 ≡ charged T r.0 (write_count (counted T) q) + writes T s
writes-dispatch T origin q s = elim (dispatch-cases (counted T) origin q s) [
  | inl (x, e) ↦ rw e (omega arith)
  | inr (who, t, by, step, e) ↦ rw e (writes-Transition T who s t q step)
]
