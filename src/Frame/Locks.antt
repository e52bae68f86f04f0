-- ===== src/Frame/Locks.antt =====
-- `LockableCurrency` of Frame/Currency.antt, filled by an association list. The only reason is all
-- of them.
use vantiy_name_registry.Base.{
  list_discrete, ℕ, zero, suc, ◌<◌, ◌≡◌, refl, ◌≢◌, some, List, [], ◌∷◌, ℕ_discrete, arith,
}
use vantiy_name_registry.Frame.Currency.{LockableCurrency, LockIdentifier}
use vantiy_name_registry.Frame.Assoc.{
  lookup, without, lookup-cons_self, lookup-cons_ne, lookup-without_self, lookup-without_ne,
}
use vantiy_name_registry.Frame.Maps.{pair_discrete}

module _ {A : Type 0} (dec : Discrete A) where
  abbrev Amount : Type 0
  Amount = ℕ × Unit {0}

  abbrev Locked : Type 0
  Locked = List ((LockIdentifier × A) × Amount)

  abbrev key_discrete : Discrete (LockIdentifier × A)
  key_discrete = pair_discrete (list_discrete ℕ_discrete) dec

  abbrev lock : LockIdentifier → A → ℕ → Unit {0} → Locked → Locked
  lock i a zero r l = l
  lock i a (suc n) r l = ((i, a), (suc n, r)) ∷ l

  pub lookup-lock_self :
      (i : LockIdentifier) (a : A) (n : ℕ) (r : Unit {0}) (l : Locked)
      → 0 < n
      → lookup key_discrete (i, a) (lock i a n r l) ≡ some (n, r)
  lookup-lock_self i a zero r l h = absurd (omega arith)
  lookup-lock_self i a (suc n) r l h = lookup-cons_self key_discrete (i, a) (suc n, r) l

  pub lookup-lock_ne :
      (i j : LockIdentifier) (a b : A) (n : ℕ) (r : Unit {0}) (l : Locked)
      → ◌≢◌ {A = LockIdentifier × A} (i, a) (j, b)
      → lookup key_discrete (j, b) (lock i a n r l) ≡ lookup key_discrete (j, b) l
  lookup-lock_ne i j a b zero r l ne = refl
  lookup-lock_ne i j a b (suc n) r l ne = lookup-cons_ne key_discrete (i, a) (j, b) (suc n, r) l ne

  unfoldable pub assoc_currency : LockableCurrency A
  unfolding lookup without
  assoc_currency = record {
    Locks = Locked;
    Reasons = Unit {0};
    all_reasons = tt;
    no_locks = [];
    lock_of = λ i a. lookup key_discrete (i, a);
    set_lock = lock;
    remove_lock = λ i a. without key_discrete (i, a);
    lock_of-no_locks = λ i a. refl;
    lock_of-set_lock_self = lookup-lock_self;
    lock_of-set_lock_ne = lookup-lock_ne;
    lock_of-remove_lock_self = λ i a. lookup-without_self key_discrete (i, a);
    lock_of-remove_lock_ne = λ i j a b. lookup-without_ne key_discrete (i, a) (j, b);
  }
