-- ===== src/Registry/Commits.antt =====
-- What `commit` of pallets/vanity-registry/src/lib.rs writes.
use vantiy_name_registry.Base.{suc, ◌≡◌, sym, ◌∙◌, ap, subst, ◌≢◌, none, some, arith}
use vantiy_name_registry.Registry.{
  Config, LockPeriod, State, num_of_commits, update_locked_fund, insert_commit, remove_commit,
}
use vantiy_name_registry.Registry.Counting.{
  commit_at, num_of_commits-eq, num_of_commits_mono, num_of_commits-le_suc, suc-num_of_commits-le,
}
use vantiy_name_registry.Registry.Funds.{update_locked_fund_frame}

module _ (T : Config) where
  -- Everything but the locks is as it was before `update_locked_fund`.
  pub commit_at-update_locked_fund :
      (id a : T.AccountId) (h : T.Hash) (s : State T)
      → commit_at T a h (update_locked_fund T id s) ≡ commit_at T a h s
  commit_at-update_locked_fund id a h s = rw (update_locked_fund_frame T id s)

  pub num_of_commits_of_eq :
      (a : T.AccountId) (s t : State T)
      → t.lock_periods ≡ s.lock_periods
      → num_of_commits T a t ≡ num_of_commits T a s
  num_of_commits_of_eq a s t e = num_of_commits-eq T a s t (λ h. ap (T.lock_periods.get a h) e)

  pub num_of_commits-update_locked_fund :
      (id a : T.AccountId) (s : State T)
      → num_of_commits T a (update_locked_fund T id s) ≡ num_of_commits T a s
  num_of_commits-update_locked_fund id a s =
      num_of_commits-eq T a s (update_locked_fund T id s)
        (λ h. commit_at-update_locked_fund id a h s)

  pub commit_at-insert_commit_self :
      (who : T.AccountId) (hash : T.Hash) (p : LockPeriod) (s : State T)
      → commit_at T who hash (insert_commit T who hash p s) ≡ some p
  unfolding insert_commit
  commit_at-insert_commit_self who hash p s =
      T.lock_periods.get-insert_self who hash p s.lock_periods

  pub commit_at-insert_commit_ne :
      (who a : T.AccountId) (hash h : T.Hash) (p : LockPeriod) (s : State T)
      → ◌≢◌ {A = T.AccountId × T.Hash} (who, hash) (a, h)
      → commit_at T a h (insert_commit T who hash p s) ≡ commit_at T a h s
  unfolding insert_commit
  commit_at-insert_commit_ne who a hash h p s ne =
      T.lock_periods.get-insert_ne who a hash h p s.lock_periods ne

  pub commit_at-insert_commit-keep :
      (who : T.AccountId) (hash h : T.Hash) (p : LockPeriod) (s : State T)
      → commit_at T who h s ≢ none
      → commit_at T who h (insert_commit T who hash p s) ≢ none
  commit_at-insert_commit-keep who hash h p s c e = elim (T.hash_discrete hash h) [
    | yes q ↦ cc (commit_at-insert_commit_self who hash p s, q, e)
    | no n ↦ c (sym (commit_at-insert_commit_ne who who hash h p s (λ q. n (ap (λ x. x.1) q))) ∙ e)
  ]

  pub commit_at-insert_commit-back :
      (who : T.AccountId) (hash h : T.Hash) (p : LockPeriod) (s : State T)
      → h ≢ hash
      → commit_at T who h (insert_commit T who hash p s) ≢ none
      → commit_at T who h s ≢ none
  commit_at-insert_commit-back who hash h p s n c e =
      c (commit_at-insert_commit_ne who who hash h p s (λ q. n (sym (ap (λ x. x.1) q))) ∙ e)

  -- A commit under a new hash raises the count by one; a commit again leaves it.
  pub num_of_commits-insert_commit_new :
      (who : T.AccountId) (hash : T.Hash) (p : LockPeriod) (s : State T)
      → commit_at T who hash s ≡ none
      → num_of_commits T who (insert_commit T who hash p s) ≡ suc (num_of_commits T who s)
  num_of_commits-insert_commit_new who hash p s absent =
      let t = insert_commit T who hash p s in
      omega (
        arith,
        num_of_commits-le_suc T who hash s t (λ h. commit_at-insert_commit-back who hash h p s),
        suc-num_of_commits-le T who hash s t absent
            (λ e. cc (commit_at-insert_commit_self who hash p s, e))
            (λ h. commit_at-insert_commit-keep who hash h p s),
      )

  pub num_of_commits-insert_commit_again :
      (who : T.AccountId) (hash : T.Hash) (p : LockPeriod) (s : State T)
      → commit_at T who hash s ≢ none
      → num_of_commits T who (insert_commit T who hash p s) ≡ num_of_commits T who s
  num_of_commits-insert_commit_again who hash p s present =
      let t = insert_commit T who hash p s in
      omega (
        arith,
        num_of_commits_mono T who s t (λ h. commit_at-insert_commit-keep who hash h p s),
        num_of_commits_mono T who t s (λ h c. elim (T.hash_discrete h hash) [
          | yes q ↦ rw q present
          | no n ↦ commit_at-insert_commit-back who hash h p s n c
        ]),
      )

  -- Another account's count stays.
  pub num_of_commits-insert_commit_ne :
      (who a : T.AccountId) (hash : T.Hash) (p : LockPeriod) (s : State T)
      → who ≢ a
      → num_of_commits T a (insert_commit T who hash p s) ≡ num_of_commits T a s
  num_of_commits-insert_commit_ne who a hash p s n =
      num_of_commits-eq T a s (insert_commit T who hash p s)
        (λ h. commit_at-insert_commit_ne who a hash h p s (λ q. n (ap (λ x. x.0) q)))

  pub commit_at-remove_commit_self :
      (who : T.AccountId) (hash : T.Hash) (s : State T)
      → commit_at T who hash (remove_commit T who hash s) ≡ none
  unfolding remove_commit
  commit_at-remove_commit_self who hash s = T.lock_periods.get-remove_self who hash s.lock_periods

  pub commit_at-remove_commit_ne :
      (who a : T.AccountId) (hash h : T.Hash) (s : State T)
      → ◌≢◌ {A = T.AccountId × T.Hash} (who, hash) (a, h)
      → commit_at T a h (remove_commit T who hash s) ≡ commit_at T a h s
  unfolding remove_commit
  commit_at-remove_commit_ne who a hash h s ne =
      T.lock_periods.get-remove_ne who a hash h s.lock_periods ne

  pub commit_at-remove_commit-back :
      (who : T.AccountId) (hash h : T.Hash) (s : State T)
      → commit_at T who h (remove_commit T who hash s) ≢ none
      → commit_at T who h s ≢ none
  commit_at-remove_commit-back who hash h s c e = elim (T.hash_discrete hash h) [
    | yes q ↦ c (
        subst (λ x. commit_at T who x (remove_commit T who hash s) ≡ none) q
          (commit_at-remove_commit_self who hash s))
    | no n ↦ c (commit_at-remove_commit_ne who who hash h s (λ q. n (ap (λ x. x.1) q)) ∙ e)
  ]

  pub commit_at-remove_commit-keep :
      (who : T.AccountId) (hash h : T.Hash) (s : State T)
      → h ≢ hash
      → commit_at T who h s ≢ none
      → commit_at T who h (remove_commit T who hash s) ≢ none
  commit_at-remove_commit-keep who hash h s n c e =
      c (sym (commit_at-remove_commit_ne who who hash h s (λ q. n (sym (ap (λ x. x.1) q)))) ∙ e)

  -- Taking a commit that is there lowers the count by one.
  pub num_of_commits-remove_commit_self :
      (who : T.AccountId) (hash : T.Hash) (s : State T)
      → commit_at T who hash s ≢ none
      → num_of_commits T who s ≡ suc (num_of_commits T who (remove_commit T who hash s))
  num_of_commits-remove_commit_self who hash s present =
      let t = remove_commit T who hash s in
      omega (
        arith,
        num_of_commits-le_suc T who hash t s (λ h. commit_at-remove_commit-keep who hash h s),
        suc-num_of_commits-le T who hash t s (commit_at-remove_commit_self who hash s) present
            (λ h. commit_at-remove_commit-back who hash h s),
      )

  pub num_of_commits-remove_commit_ne :
      (who a : T.AccountId) (hash : T.Hash) (s : State T)
      → who ≢ a
      → num_of_commits T a (remove_commit T who hash s) ≡ num_of_commits T a s
  num_of_commits-remove_commit_ne who a hash s n =
      num_of_commits-eq T a s (remove_commit T who hash s)
        (λ h. commit_at-remove_commit_ne who a hash h s (λ q. n (ap (λ x. x.0) q)))
