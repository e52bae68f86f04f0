-- ===== src/Frame/Currency.antt =====
-- `LockableCurrency` of frame_support: locks on the funds of an account, each under an identifier,
-- with the documented behaviour of the two calls that the pallet makes. A lock of amount zero is
-- no lock.
use vantiy_name_registry.Base.{ℕ, ◌<◌, ◌≡◌, ◌≢◌, Option, none, some, List}

-- `LockIdentifier`: eight bytes.
abbrev pub LockIdentifier : Type 0
LockIdentifier = List ℕ

pub record LockableCurrency (AccountId : Type 0) : Type 1 where
  -- The currency's own state.
  pub Locks : Type 0
  pub Reasons : Type 0
  -- `WithdrawReasons::all()`.
  pub all_reasons : Reasons
  pub no_locks : Locks
  pub lock_of : LockIdentifier → AccountId → Locks → Option (ℕ × Reasons)
  pub set_lock : LockIdentifier → AccountId → ℕ → Reasons → Locks → Locks
  pub remove_lock : LockIdentifier → AccountId → Locks → Locks
  pub lock_of-no_locks : (i : LockIdentifier) (a : AccountId) → lock_of i a no_locks ≡ none
  pub lock_of-set_lock_self :
      (i : LockIdentifier) (a : AccountId) (n : ℕ) (r : Reasons) (l : Locks)
      → 0 < n
      → lock_of i a (set_lock i a n r l) ≡ some (n, r)
  pub lock_of-set_lock_ne :
      (i j : LockIdentifier) (a b : AccountId) (n : ℕ) (r : Reasons) (l : Locks)
      → ◌≢◌ {A = LockIdentifier × AccountId} (i, a) (j, b)
      → lock_of j b (set_lock i a n r l) ≡ lock_of j b l
  pub lock_of-remove_lock_self :
      (i : LockIdentifier) (a : AccountId) (l : Locks) → lock_of i a (remove_lock i a l) ≡ none
  pub lock_of-remove_lock_ne :
      (i j : LockIdentifier) (a b : AccountId) (l : Locks)
      → ◌≢◌ {A = LockIdentifier × AccountId} (i, a) (j, b)
      → lock_of j b (remove_lock i a l) ≡ lock_of j b l
