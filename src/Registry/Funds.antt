-- ===== src/Registry/Funds.antt =====
-- What `update_locked_fund` of pallets/vanity-registry/src/lib.rs does to the locks of an account.
use Prim.Native.Nat.{min}
use vantiy_name_registry.Base.{
  zero, suc, ◌-◌, ◌∙◌, ℕ, ◌≤◌, ◌<◌, ◌^◌, ◌*◌, ◌≡◌, ◌≢◌, inl, inr, Option, none, some, List, arith,
  ltb, if◌then◌else◌, Bool-cases,
}
use vantiy_name_registry.Base.Words.{
  saturating_mul, saturated_into, saturating_mul_mono, saturating_mul-pos,
  saturating_mul-saturated_into,
}
use vantiy_name_registry.Registry.{
  Config, State, num_of_commits, amount_to_lock, update_locked_fund,
}

-- The fund of a commit is not zero, and a balance has a bit.
pub record IsFunded (T : Config) : Type 0 where
  pub funded : 0 < T.fund_to_lock
  pub wide : 1 < 2 ^ T.balance_bits

module _ (T : Config) where
  -- The pallet's lock on an account.
  abbrev pub lock_at : T.AccountId → State T → Option (ℕ × T.currency.Reasons)
  lock_at id s = T.currency.lock_of T.module_id id s.locks

  -- The lock that `n` commits call for.
  abbrev pub lock_for : ℕ → Option (ℕ × T.currency.Reasons)
  lock_for n = if ltb 0 n then some (amount_to_lock T n, T.currency.all_reasons) else none

  -- The same, written out: the fund for each commit, up to the largest balance.
  abbrev pub fund_for : ℕ → Option (ℕ × T.currency.Reasons)
  fund_for zero = none
  fund_for (suc n) =
      some (min (T.fund_to_lock * suc n) (2 ^ T.balance_bits - 1), T.currency.all_reasons)

  lock_for-eq : (n : ℕ) → 0 < T.fund_to_lock → lock_for n ≡ fund_for n
  unfolding amount_to_lock
  lock_for-eq zero h = ground arith
  lock_for-eq (suc n) h =
      ground (arith, saturating_mul-saturated_into T.balance_bits T.fund_to_lock (suc n) h)

  pub amount_to_lock_mono : (m n : ℕ) → m ≤ n → amount_to_lock T m ≤ amount_to_lock T n
  unfolding amount_to_lock
  amount_to_lock_mono m n h = saturating_mul_mono T.balance_bits T.fund_to_lock m n h

  -- Nothing saturates where the product fits in a balance.
  pub amount_to_lock-eq :
      (n : ℕ)
      → n < 2 ^ T.balance_bits
      → T.fund_to_lock * n < 2 ^ T.balance_bits
      → amount_to_lock T n ≡ T.fund_to_lock * n
  unfolding amount_to_lock saturating_mul saturated_into
  amount_to_lock-eq n hn hm = grind arith

  amount_to_lock-pos : (n : ℕ) → IsFunded T → 0 < n → 0 < amount_to_lock T n
  unfolding amount_to_lock
  amount_to_lock-pos n v h = saturating_mul-pos T.balance_bits T.fund_to_lock n v.wide v.funded h

  pub lock_at-update_locked_fund :
      (id : T.AccountId) (s : State T)
      → IsFunded T
      → lock_at id (update_locked_fund T id s) ≡ lock_for (num_of_commits T id s)
  unfolding update_locked_fund
  lock_at-update_locked_fund id s v =
      let n = num_of_commits T id s in
      elim (Bool-cases (ltb 0 n)) [
        | inl h ↦ rw h (
            T.currency.lock_of-set_lock_self T.module_id id (amount_to_lock T n)
              T.currency.all_reasons s.locks (amount_to_lock-pos n v (ground arith)))
        | inr h ↦ rw h (T.currency.lock_of-remove_lock_self T.module_id id s.locks)
      ]

  pub lock_of-update_locked_fund_ne :
      (i : List ℕ) (id a : T.AccountId) (s : State T)
      → ◌≢◌ {A = List ℕ × T.AccountId} (T.module_id, id) (i, a)
      → T.currency.lock_of i a (update_locked_fund T id s).locks ≡ T.currency.lock_of i a s.locks
  unfolding update_locked_fund
  lock_of-update_locked_fund_ne i id a s ne =
      let n = num_of_commits T id s in
      elim (Bool-cases (ltb 0 n)) [
        | inl h ↦ rw h (
            T.currency.lock_of-set_lock_ne T.module_id i id a (amount_to_lock T n)
              T.currency.all_reasons s.locks ne)
        | inr h ↦ rw h (T.currency.lock_of-remove_lock_ne T.module_id i id a s.locks ne)
      ]

  -- If the fund to lock is not zero, the lock of the account becomes the fund times the number of its
  -- commits, or the largest balance where that is less, for all reasons, and none if there are no commits.
  -- No other lock is touched: neither another account's nor another pallet's.
  pub locks-update_locked_fund :
      (id : T.AccountId) (i : List ℕ) (a : T.AccountId) (s : State T)
      → IsFunded T
      → ◌≢◌ {A = List ℕ × T.AccountId} (T.module_id, id) (i, a)
      → (lock_at id (update_locked_fund T id s) ≡ fund_for (num_of_commits T id s))
        × (T.currency.lock_of i a (update_locked_fund T id s).locks
            ≡ T.currency.lock_of i a s.locks)
  locks-update_locked_fund id i a s v ne = (
    lock_at-update_locked_fund id s v ∙ lock_for-eq (num_of_commits T id s) v.funded,
    lock_of-update_locked_fund_ne i id a s ne,
  )

  -- Only the locks change.
  pub update_locked_fund_frame :
      (id : T.AccountId) (s : State T)
      → update_locked_fund T id s ≡ record s { locks = (update_locked_fund T id s).locks }
  unfolding update_locked_fund
  update_locked_fund_frame id s = ground arith
