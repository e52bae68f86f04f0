-- ===== src/Registry.antt =====
-- pallets/vanity-registry/src/lib.rs: the state that the pallet reads and writes, its helpers, its
-- four dispatchable calls and its hook.
mod Types
pub mod Counting
pub mod Funds
pub mod Calls
pub mod Outcomes
pub mod Transitions
pub mod Commits
pub mod Entries
pub mod Claims
pub mod FrontRunning
pub mod Blocks
pub mod Chain
pub mod Expiry
pub mod Spec
pub mod Framework
pub mod Hashing
pub mod Names
pub mod Writes
pub mod Ledger
pub mod Tests
pub use Types.*
use vantiy_name_registry.Base.{
  ℕ, ◌≤◌, Bool, true, false, Option, none, some, List, [], ◌∷◌, ◌++◌, map, filter, ite, dec_le,
  length, ltb, leb, if◌then◌else◌,
}
use vantiy_name_registry.Base.Words.{wrapping_add, saturating_mul, saturated_into}
use vantiy_name_registry.Frame.Dispatch.{
  DispatchError, bad_origin, pallet_error, Result, ok, err, Exec, lift, gets, ok_or, modify, ◌>>=◌,
  ◌>>◌,
}

-- The pallet's two maps, the block number of `frame_system`, the currency's state, and the events
-- in the order of the calls of `deposit_event`.
pub record State (T : Config) : Type 0 where
  pub block_number : ℕ
  pub lock_periods : T.lock_periods.Store
  pub owners : T.owners.Store
  pub locks : T.currency.Locks
  pub events : List (Event T.Name T.AccountId T.Hash)

module _ (T : Config) where
  abbrev pub OwnerOf : Type 0
  OwnerOf = Owner T.AccountId T.Hash

  abbrev pub EventOf : Type 0
  EventOf = Event T.Name T.AccountId T.Hash

  abbrev pub Call : Type 0
  Call = Exec (State T) Error (Unit {0})

  -- `Self::deposit_event`.
  abbrev pub deposit_event : EventOf → State T → State T
  deposit_event e s = record s { events = s.events ++ e ∷ [] }

  -- `ensure_signed(origin)?`
  abbrev pub signer : T.Origin → Exec (State T) Error T.AccountId
  signer origin s = elim (T.ensure_signed origin) [
    | none ↦ (err bad_origin, s)
    | some who ↦ (ok who, s)
  ]

  -- The hash of `id` concatenated with `name`.
  pub hash_of : T.AccountId → T.Name → T.Hash
  hash_of id name = T.hash_of_bytes (T.encode_account id ++ T.encode_name name)

  pub num_of_commits : T.AccountId → State T → ℕ
  num_of_commits id s = length (T.lock_periods.iter_prefix_values id s.lock_periods)

  pub amount_to_lock : ℕ → ℕ
  amount_to_lock n = saturating_mul T.balance_bits T.fund_to_lock (saturated_into T.balance_bits n)

  -- Set the lock by the number of commits of `id`, and remove it if there are none.
  pub update_locked_fund : T.AccountId → State T → State T
  update_locked_fund id s =
      let n = num_of_commits id s in
      if ltb 0 n
      then record s {
        locks =
            T.currency.set_lock T.module_id id (amount_to_lock n) T.currency.all_reasons s.locks;
      }
      else record s { locks = T.currency.remove_lock T.module_id id s.locks }

  pub ensure_owner : T.AccountId → T.Name → Exec (State T) Error OwnerOf
  ensure_owner origin name s = elim (T.owners.get name s.owners) [
    | none ↦ (err (pallet_error name_not_found), s)
    | some owner ↦ elim (T.account_discrete owner.id origin) [
      | yes _ ↦ (ok owner, s)
      | no _ ↦ (err (pallet_error name_not_owned), s)
    ]
  ]

  pub insert_commit : T.AccountId → T.Hash → LockPeriod → State T → State T
  insert_commit who hash p s = record s {
    lock_periods = T.lock_periods.insert who hash p s.lock_periods;
  }

  pub commit : T.Origin → T.Hash → Call
  unfolding insert_commit
  commit origin hash = do
    who ← signer origin
    begin ← gets (λ s. s.block_number)
    let end = wrapping_add T.block_number_bits begin T.register_period
    modify (insert_commit who hash (record { begin = begin; end = end }))
    modify (update_locked_fund who)

  -- `LockPeriods::<T>::take`.
  pub take_commit : T.AccountId → T.Hash → Exec (State T) Error (Option LockPeriod)
  take_commit who hash s =
      let (found, rest) = T.lock_periods.take who hash s.lock_periods in
      (ok found, record s { lock_periods = rest })

  pub insert_owner : T.Name → OwnerOf → State T → State T
  insert_owner name owner s = record s { owners = T.owners.insert name owner s.owners }

  pub remove_owner : T.Name → State T → State T
  remove_owner name s = record s { owners = T.owners.remove name s.owners }

  -- The test under `if let Some(current_owner)` in `reveal`.
  abbrev pub is_discredited : Option OwnerOf → LockPeriod → Bool
  is_discredited none _ = false
  is_discredited (some current_owner) p = leb current_owner.lock_period.begin p.begin

  pub reveal : T.Origin → T.Name → Call
  unfolding take_commit insert_owner
  reveal origin name = do
    who ← signer origin
    let commit = hash_of who name
    new_claim_lock_period ← ok_or (← take_commit who commit) commit_not_found
    current ← gets (λ s. T.owners.get name s.owners)
    if is_discredited current new_claim_lock_period
        then (do
          modify (update_locked_fund who)
          modify (deposit_event (reveal_discredited name who)))
        else do
          let owner : OwnerOf = record {
            id = who;
            commit = commit;
            lock_period = new_claim_lock_period;
          }
          modify (insert_owner name owner)
          modify (deposit_event (name_owned name who))

  pub renew : T.Origin → T.Name → Call
  unfolding insert_owner ensure_owner
  renew origin name = do
    who ← signer origin
    owner ← ensure_owner who name
    now ← gets (λ s. s.block_number)
    let end = wrapping_add T.block_number_bits now T.register_period
    modify (
        insert_owner name
          (record owner { lock_period = record { begin = owner.lock_period.begin; end = end } }))

  pub unregister : T.Origin → T.Name → Call
  unfolding remove_owner ensure_owner
  unregister origin name = do
    who ← signer origin
    _ ← ensure_owner who name
    modify (remove_owner name)
    modify (update_locked_fund who)
    modify (deposit_event (name_freed name))

  -- The calls of the pallet, as the `Call` that `#[pallet::call]` derives from them.
  pub data Request : Type 0 where
    commit_call : T.Hash → Request
    reveal_call : T.Name → Request
    renew_call : T.Name → Request
    unregister_call : T.Name → Request

  pub dispatch : T.Origin → Request → Call
  dispatch origin (commit_call hash) = commit origin hash
  dispatch origin (reveal_call name) = reveal origin name
  dispatch origin (renew_call name) = renew origin name
  dispatch origin (unregister_call name) = unregister origin name

  abbrev pub is_expired : (now : ℕ) (p : LockPeriod) → Dec (p.end ≤ now)
  is_expired now p = dec_le p.end now

  -- The commits whose lock period is over, in the order of the iteration.
  pub expired_commits : ℕ → State T → List (T.AccountId × T.Hash)
  expired_commits now s =
      map (λ e. (e.0, e.1)) (filter (λ e. is_expired now e.2) (T.lock_periods.iter s.lock_periods))

  pub remove_commit : T.AccountId → T.Hash → State T → State T
  remove_commit id commit s = record s {
    lock_periods = T.lock_periods.remove id commit s.lock_periods;
  }

  -- The body of the loop of `remove_expired_commits`.
  pub expire_commit : T.AccountId × T.Hash → State T → State T
  unfolding remove_commit
  expire_commit (id, commit) s =
      deposit_event (commit_expired commit id) (update_locked_fund id (remove_commit id commit s))

  pub expire_commits : List (T.AccountId × T.Hash) → State T → State T
  expire_commits [] s = s
  expire_commits (c ∷ cs) s = expire_commits cs (expire_commit c s)

  pub remove_expired_commits : ℕ → State T → State T
  remove_expired_commits now s = expire_commits (expired_commits now s) s

  pub expired_names : ℕ → State T → List (T.Name × OwnerOf)
  expired_names now s = filter (λ e. is_expired now e.1.lock_period) (T.owners.iter s.owners)

  -- The body of the loop of `remove_expired_names`.
  pub free_name : T.Name × OwnerOf → State T → State T
  unfolding remove_owner
  free_name (name, owner) s =
      deposit_event (name_freed name) (update_locked_fund owner.id (remove_owner name s))

  pub free_names : List (T.Name × OwnerOf) → State T → State T
  free_names [] s = s
  free_names (e ∷ es) s = free_names es (free_name e s)

  pub remove_expired_names : ℕ → State T → State T
  remove_expired_names now s = free_names (expired_names now s) s

  pub on_finalize : ℕ → State T → State T
  on_finalize now s = remove_expired_names now (remove_expired_commits now s)
