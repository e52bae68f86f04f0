-- ===== src/Registry/Spec/Views.antt =====
-- What each write of pallets/vanity-registry/src/lib.rs does to the view.
use vantiy_name_registry.Base.{
  ◌-◌, ◌≡◌, refl, subst, fun_ext, ◌≢◌, inl, inr, none, some, arith, Option-cases,
}
use mathlib.Core.Logic.{if_pos, if_neg}
use vantiy_name_registry.Registry.{
  Config, LockPeriod, OwnerOf, EventOf, State, num_of_commits, deposit_event, update_locked_fund,
  insert_commit, remove_commit, insert_owner, remove_owner,
}
use vantiy_name_registry.Registry.Counting.{commit_at}
use vantiy_name_registry.Registry.Funds.{
  IsFunded, lock_for, lock_at-update_locked_fund, lock_of-update_locked_fund_ne,
  update_locked_fund_frame,
}
use vantiy_name_registry.Registry.Commits
use vantiy_name_registry.Registry.Spec.{
  put, view, commit_key_discrete, lock_key_discrete, settle, announce, grown, add_commit,
  drop_commit, assign,
}

-- A function that agrees with `f` off one key.
put-eq :
    {K V : Type 0} (dec : Discrete K) (k : K) (v : V) (f g : K → V)
    → g k ≡ v
    → ((j : K) → k ≢ j → g j ≡ f j)
    → g ≡ put dec k v f
put-eq dec k v f g at off = fun_ext (λ j. elim (dec k j) [
  | yes p ↦ rw (if_pos _ p) (subst (λ x. g x ≡ v) p at)
  | no n ↦ rw (if_neg _ n) (off j n)
])

module _ (T : Config) where
  pub view-update_locked_fund :
      (id : T.AccountId) (s : State T)
      → IsFunded T
      → view T (update_locked_fund T id s) ≡ settle T id (view T s)
  unfolding view
  view-update_locked_fund id s v = λ i. record {
    block_number = (update_locked_fund_frame T id s i).block_number;
    commits = λ k. Commits.commit_at-update_locked_fund T id k.0 k.1 s i;
    count = λ a. Commits.num_of_commits-update_locked_fund T id a s i;
    owners = λ name. T.owners.get name (update_locked_fund_frame T id s i).owners;
    locks =
        put-eq (lock_key_discrete T) (T.module_id, id) (lock_for T (num_of_commits T id s))
          (λ k. T.currency.lock_of k.0 k.1 s.locks)
          (λ k. T.currency.lock_of k.0 k.1 (update_locked_fund T id s).locks)
          (lock_at-update_locked_fund T id s v)
          (λ k n. lock_of-update_locked_fund_ne T k.0 id k.1 s n) i;
    events = (update_locked_fund_frame T id s i).events;
  }

  pub view-deposit_event :
      (e : EventOf T) (s : State T) → view T (deposit_event T e s) ≡ announce T e (view T s)
  unfolding view
  view-deposit_event e s = λ i. record {
    block_number = s.block_number;
    commits = (view T s).commits;
    count = λ a. Commits.num_of_commits_of_eq T a s (deposit_event T e s) refl i;
    owners = (view T s).owners;
    locks = (view T s).locks;
    events = (announce T e (view T s)).events;
  }

  pub view-insert_owner :
      (name : T.Name) (o : OwnerOf T) (s : State T)
      → view T (insert_owner T name o s) ≡ assign T name (some o) (view T s)
  unfolding view insert_owner
  view-insert_owner name o s = λ i. record {
    block_number = s.block_number;
    commits = (view T s).commits;
    count = λ a. Commits.num_of_commits_of_eq T a s (insert_owner T name o s) refl i;
    owners =
        put-eq T.name_discrete name (some o) (λ n. T.owners.get n s.owners)
          (λ n. T.owners.get n (T.owners.insert name o s.owners))
          (T.owners.get-insert_self name o s.owners)
          (λ n ne. T.owners.get-insert_ne name n o s.owners ne) i;
    locks = (view T s).locks;
    events = s.events;
  }

  pub view-remove_owner :
      (name : T.Name) (s : State T) → view T (remove_owner T name s) ≡ assign T name none (view T s)
  unfolding view remove_owner
  view-remove_owner name s = λ i. record {
    block_number = s.block_number;
    commits = (view T s).commits;
    count = λ a. Commits.num_of_commits_of_eq T a s (remove_owner T name s) refl i;
    owners =
        put-eq T.name_discrete name none (λ n. T.owners.get n s.owners)
          (λ n. T.owners.get n (T.owners.remove name s.owners))
          (T.owners.get-remove_self name s.owners)
          (λ n ne. T.owners.get-remove_ne name n s.owners ne) i;
    locks = (view T s).locks;
    events = s.events;
  }

  grown-insert_commit :
      (who : T.AccountId) (hash : T.Hash) (p : LockPeriod) (s : State T)
      → num_of_commits T who (insert_commit T who hash p s)
        ≡ grown T (commit_at T who hash s) (num_of_commits T who s)
  grown-insert_commit who hash p s = elim (Option-cases (commit_at T who hash s)) [
    | inl e ↦ rw e (Commits.num_of_commits-insert_commit_new T who hash p s e)
    | inr (q, e) ↦ rw e (Commits.num_of_commits-insert_commit_again T who hash p s (λ n. cc (e, n)))
  ]

  pub view-insert_commit :
      (who : T.AccountId) (hash : T.Hash) (p : LockPeriod) (s : State T)
      → view T (insert_commit T who hash p s) ≡ add_commit T who hash p (view T s)
  unfolding view insert_commit
  view-insert_commit who hash p s = λ i. record {
    block_number = s.block_number;
    commits =
        put-eq (commit_key_discrete T) (who, hash) (some p)
          (λ k. T.lock_periods.get k.0 k.1 s.lock_periods)
          (λ k. T.lock_periods.get k.0 k.1 (T.lock_periods.insert who hash p s.lock_periods))
          (Commits.commit_at-insert_commit_self T who hash p s)
          (λ k n. Commits.commit_at-insert_commit_ne T who k.0 hash k.1 p s n) i;
    count =
        put-eq T.account_discrete who (grown T (commit_at T who hash s) (num_of_commits T who s))
          (λ a. num_of_commits T a s) (λ a. num_of_commits T a (insert_commit T who hash p s))
          (grown-insert_commit who hash p s)
          (λ a n. Commits.num_of_commits-insert_commit_ne T who a hash p s n) i;
    owners = (view T s).owners;
    locks = (view T s).locks;
    events = s.events;
  }

  pub view-remove_commit :
      (who : T.AccountId) (hash : T.Hash) (s : State T)
      → commit_at T who hash s ≢ none
      → view T (remove_commit T who hash s) ≡ drop_commit T who hash (view T s)
  unfolding view remove_commit
  view-remove_commit who hash s present = λ i. record {
    block_number = s.block_number;
    commits =
        put-eq (commit_key_discrete T) (who, hash) none
          (λ k. T.lock_periods.get k.0 k.1 s.lock_periods)
          (λ k. T.lock_periods.get k.0 k.1 (T.lock_periods.remove who hash s.lock_periods))
          (Commits.commit_at-remove_commit_self T who hash s)
          (λ k n. Commits.commit_at-remove_commit_ne T who k.0 hash k.1 s n) i;
    count =
        put-eq T.account_discrete who (num_of_commits T who s - 1) (λ a. num_of_commits T a s)
          (λ a. num_of_commits T a (remove_commit T who hash s))
          (omega (arith, Commits.num_of_commits-remove_commit_self T who hash s present))
          (λ a n. Commits.num_of_commits-remove_commit_ne T who a hash s n) i;
    owners = (view T s).owners;
    locks = (view T s).locks;
    events = s.events;
  }
