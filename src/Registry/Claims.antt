-- ===== src/Registry/Claims.antt =====
-- Whom a name belongs to under the writes of pallets/vanity-registry/src/lib.rs.
pub mod Dispatch
use vantiy_name_registry.Base.{
  ℕ, ◌≤◌, ◌<◌, ◌≡◌, refl, sym, ap, subst, ◌∙◌, ◌≢◌, inl, inr, Option, none, some, List, arith, leb,
  true, false, if◌then◌else◌, Option-cases, Bool-cases,
}
use vantiy_name_registry.Frame.Dispatch.{ok, err, pallet_error}
use vantiy_name_registry.Registry.{
  Config, LockPeriod, Owner, OwnerOf, State, hash_of, Request, commit_call, reveal_call, renew_call,
  unregister_call, dispatch, update_locked_fund, insert_commit, remove_commit, insert_owner,
  remove_owner, deposit_event, is_discredited, commit, reveal, renew, unregister,
  reveal_discredited, name_owned, name_freed, EventOf,
}
use vantiy_name_registry.Registry.Counting.{commit_at}
use vantiy_name_registry.Registry.Funds.{update_locked_fund_frame}
use vantiy_name_registry.Registry.Commits
use vantiy_name_registry.Registry.Calls.{
  owner_at, new_end, new_period, reveal_found, commit_lem, reveal_unknown, reveal_known,
  renew_owned, renew_not_owned, renew_not_found, unregister_owned, unregister_not_owned,
  unregister_not_found,
}
use vantiy_name_registry.Registry.Entries.{
  commit_of_insert_commit, commit_of_remove_commit, begin-le_of_eq, owner_at-insert_owner_self,
  owner_at-insert_owner_ne, owner_at-remove_owner_ne,
}
use vantiy_name_registry.Registry.Outcomes.{dispatch_unsigned}

module _ (T : Config) where
  -- Who holds a name, and since which block.
  abbrev pub holder : Option (OwnerOf T) → Option (T.AccountId × ℕ)
  holder none = none
  holder (some o) = some (o.id, o.lock_period.begin)

  -- A claim that is older than the owner's, or to a name without an owner, is not discredited.
  pub is_discredited_of_older :
      (m : Option (OwnerOf T)) (p : LockPeriod)
      → ((o : OwnerOf T) → m ≡ some o → p.begin < o.lock_period.begin)
      → is_discredited T m p ≡ false
  is_discredited_of_older none p older = refl
  is_discredited_of_older (some o) p older = ground (arith, older o refl)

-- The name belongs to `who` by a claim of block `b`, and no pending claim is older.
pub record IsSafe (T : Config) (name : T.Name) (who : T.AccountId) (b : ℕ) (s : State T)
    : Type 0 where
  pub held : holder T (owner_at T name s) ≡ some (who, b)
  pub oldest :
      (x : T.AccountId) (p : LockPeriod) → commit_at T x (hash_of T x name) s ≡ some p → b ≤ p.begin
  pub past : b ≤ s.block_number

module _ (T : Config) (name : T.Name) (who : T.AccountId) (b : ℕ) where
  abbrev pub Safe : State T → Type 0
  Safe = IsSafe T name who b

  -- Only the two maps and the block number matter.
  Safe-of_eq :
      (s t : State T)
      → t.owners ≡ s.owners
      → t.lock_periods ≡ s.lock_periods
      → t.block_number ≡ s.block_number
      → Safe s
      → Safe t
  Safe-of_eq s t eo ec eb h = record {
    held = ap (λ m. holder T (T.owners.get name m)) eo ∙ h.held;
    oldest = λ x p e. h.oldest x p (sym (ap (T.lock_periods.get x (hash_of T x name)) ec) ∙ e);
    past = subst (λ n. b ≤ n) (sym eb) h.past;
  }

  pub Safe-update_locked_fund :
      (id : T.AccountId) (s : State T) → Safe s → Safe (update_locked_fund T id s)
  Safe-update_locked_fund id s h =
      let e = update_locked_fund_frame T id s in
      Safe-of_eq s (update_locked_fund T id s) (ap (λ (x : State T). x.owners) e)
        (ap (λ (x : State T). x.lock_periods) e) (ap (λ (x : State T). x.block_number) e) h

  pub Safe-deposit_event : (e : EventOf T) (s : State T) → Safe s → Safe (deposit_event T e s)
  Safe-deposit_event e s h = Safe-of_eq s (deposit_event T e s) refl refl refl h

  pub Safe-insert_commit :
      (x : T.AccountId) (hash : T.Hash) (p : LockPeriod) (s : State T)
      → b ≤ p.begin
      → Safe s
      → Safe (insert_commit T x hash p s)
  unfolding insert_commit
  Safe-insert_commit x hash p s le h = record {
    held = h.held;
    oldest = oldest_after;
    past = h.past;
  }
    where
      oldest_after :
          (y : T.AccountId) (q : LockPeriod)
          → commit_at T y (hash_of T y name) (insert_commit T x hash p s) ≡ some q
          → b ≤ q.begin
      oldest_after y q e = elim (commit_of_insert_commit T x y hash (hash_of T y name) p q s e) [
        | inl (_, same) ↦ begin-le_of_eq b p q same le
        | inr old ↦ h.oldest y q old
      ]

  pub Safe-remove_commit :
      (x : T.AccountId) (hash : T.Hash) (s : State T) → Safe s → Safe (remove_commit T x hash s)
  unfolding remove_commit
  Safe-remove_commit x hash s h = record {
    held = h.held;
    oldest = λ y q e. h.oldest y q (commit_of_remove_commit T x y hash (hash_of T y name) q s e);
    past = h.past;
  }

  pub Safe-insert_owner_ne :
      (m : T.Name) (o : OwnerOf T) (s : State T) → m ≢ name → Safe s → Safe (insert_owner T m o s)
  unfolding insert_owner
  Safe-insert_owner_ne m o s ne h = record {
    held = ap (holder T) (owner_at-insert_owner_ne T m name o s ne) ∙ h.held;
    oldest = h.oldest;
    past = h.past;
  }

  pub Safe-insert_owner_self :
      (o : OwnerOf T) (s : State T)
      → holder T (some o) ≡ some (who, b)
      → Safe s
      → Safe (insert_owner T name o s)
  unfolding insert_owner
  Safe-insert_owner_self o s e h = record {
    held = ap (holder T) (owner_at-insert_owner_self T name o s) ∙ e;
    oldest = h.oldest;
    past = h.past;
  }

  pub Safe-remove_owner_ne :
      (m : T.Name) (s : State T) → m ≢ name → Safe s → Safe (remove_owner T m s)
  unfolding remove_owner
  Safe-remove_owner_ne m s ne h = record {
    held = ap (holder T) (owner_at-remove_owner_ne T m name s ne) ∙ h.held;
    oldest = h.oldest;
    past = h.past;
  }

  -- A claim that is no older than the holder's is discredited.
  discredited_of_le :
      (o : Option (OwnerOf T)) (p : LockPeriod)
      → holder T o ≡ some (who, b)
      → b ≤ p.begin
      → is_discredited T o p ≡ true
  discredited_of_le none p e le = cc
  discredited_of_le (some o) p e le = ground arith

  pub Safe-discredited :
      (x : T.AccountId) (m : T.Name) (p : LockPeriod) (s : State T)
      → m ≡ name
      → commit_at T x (hash_of T x m) s ≡ some p
      → Safe s
      → is_discredited T (owner_at T m s) p ≡ true
  Safe-discredited x m p s q e h =
      discredited_of_le (owner_at T m s) p (ap (λ n. holder T (owner_at T n s)) q ∙ h.held)
        (h.oldest x p (sym (ap (λ n. commit_at T x (hash_of T x n) s) q) ∙ e))

  -- Whoever is the owner of the name is its holder.
  pub Safe-owned :
      (x : T.AccountId) (m : T.Name) (o : OwnerOf T) (s : State T)
      → owner_at T m s ≡ some o
      → o.id ≡ x
      → m ≡ name
      → Safe s
      → x ≡ who
  Safe-owned x m o s e q k h = cc (subst (λ n. owner_at T n s ≡ some o) k e, q, h.held)

  pub Safe-reveal_found :
      (x : T.AccountId) (m : T.Name) (p : LockPeriod) (s : State T)
      → commit_at T x (hash_of T x m) s ≡ some p
      → Safe s
      → Safe (reveal_found T x m p s)
  Safe-reveal_found x m p s e h =
      let taken = remove_commit T x (hash_of T x m) s in
      let owner : OwnerOf T = record { id = x; commit = hash_of T x m; lock_period = p } in
      let lost =
        Safe-deposit_event (reveal_discredited m x) (update_locked_fund T x taken)
          (Safe-update_locked_fund x taken (Safe-remove_commit x (hash_of T x m) s h)) in
      elim (T.name_discrete m name) [
        | yes q ↦ rw (Safe-discredited x m p s q e h) lost
        | no ne ↦ elim (Bool-cases (is_discredited T (owner_at T m s) p)) [
          | inl d ↦ rw d lost
          | inr d ↦ rw d (
              Safe-deposit_event (name_owned m x) (insert_owner T m owner taken)
                (Safe-insert_owner_ne m owner taken ne (Safe-remove_commit x (hash_of T x m) s h)))
        ]
      ]
