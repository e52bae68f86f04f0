-- ===== src/Frame/Counted.antt =====
-- Storage maps and currencies of frame_support with a counter of their writes: each insertion, each
-- removal, each take that finds something, and each call that sets or removes a lock counts one.
use vantiy_name_registry.Base.{ℕ, suc, ap, Option, none, some}
use vantiy_name_registry.Frame.Storage.{StorageMap, StorageDoubleMap}
use vantiy_name_registry.Frame.Currency.{LockableCurrency}

abbrev pub counted_map : {K V : Type 0} → StorageMap K V → StorageMap K V
counted_map M = record {
  Store = M.Store × ℕ;
  empty = (M.empty, 0);
  get = λ k s. M.get k s.0;
  insert = λ k v s. (M.insert k v s.0, suc s.1);
  remove = λ k s. (M.remove k s.0, suc s.1);
  iter = λ s. M.iter s.0;
  get-empty = M.get-empty;
  get-insert_self = λ k v s. M.get-insert_self k v s.0;
  get-insert_ne = λ k j v s n. M.get-insert_ne k j v s.0 n;
  get-remove_self = λ k s. M.get-remove_self k s.0;
  get-remove_ne = λ k j s n. M.get-remove_ne k j s.0 n;
  mem-iter = λ k v s. M.mem-iter k v s.0;
  Nodup-iter = λ s. M.Nodup-iter s.0;
}

-- The counter behind a take.
abbrev counted_take : {V : Type 0} → Option V → ℕ → ℕ
counted_take none n = n
counted_take (some _) n = suc n

abbrev pub counted_double_map :
    {K₁ K₂ V : Type 0} → StorageDoubleMap K₁ K₂ V → StorageDoubleMap K₁ K₂ V
counted_double_map M = record {
  Store = M.Store × ℕ;
  empty = (M.empty, 0);
  get = λ a b s. M.get a b s.0;
  insert = λ a b v s. (M.insert a b v s.0, suc s.1);
  remove = λ a b s. (M.remove a b s.0, suc s.1);
  take = λ a b s. let (found, rest) = M.take a b s.0 in (found, (rest, counted_take found s.1));
  iter = λ s. M.iter s.0;
  iter_prefix = λ a s. M.iter_prefix a s.0;
  iter_prefix_values = λ a s. M.iter_prefix_values a s.0;
  get-empty = M.get-empty;
  get-insert_self = λ a b v s. M.get-insert_self a b v s.0;
  get-insert_ne = λ a c b d v s n. M.get-insert_ne a c b d v s.0 n;
  get-remove_self = λ a b s. M.get-remove_self a b s.0;
  get-remove_ne = λ a c b d s n. M.get-remove_ne a c b d s.0 n;
  take_none = λ a b s e. ap (λ r. (r.0, (r.1, counted_take r.0 s.1))) (M.take_none a b s.0 e);
  take_some = λ a b v s e. ap (λ r. (r.0, (r.1, counted_take r.0 s.1))) (M.take_some a b v s.0 e);
  mem-iter = λ a b v s. M.mem-iter a b v s.0;
  Nodup-iter = λ s. M.Nodup-iter s.0;
  mem-iter_prefix = λ a b v s. M.mem-iter_prefix a b v s.0;
  Nodup-iter_prefix = λ a s. M.Nodup-iter_prefix a s.0;
  iter_prefix_values-eq = λ a s. M.iter_prefix_values-eq a s.0;
}

abbrev pub counted_currency :
    {AccountId : Type 0} → LockableCurrency AccountId → LockableCurrency AccountId
counted_currency M = record {
  Locks = M.Locks × ℕ;
  Reasons = M.Reasons;
  all_reasons = M.all_reasons;
  no_locks = (M.no_locks, 0);
  lock_of = λ i a l. M.lock_of i a l.0;
  set_lock = λ i a n r l. (M.set_lock i a n r l.0, suc l.1);
  remove_lock = λ i a l. (M.remove_lock i a l.0, suc l.1);
  lock_of-no_locks = M.lock_of-no_locks;
  lock_of-set_lock_self = λ i a n r l h. M.lock_of-set_lock_self i a n r l.0 h;
  lock_of-set_lock_ne = λ i j a b n r l h. M.lock_of-set_lock_ne i j a b n r l.0 h;
  lock_of-remove_lock_self = λ i a l. M.lock_of-remove_lock_self i a l.0;
  lock_of-remove_lock_ne = λ i j a b l h. M.lock_of-remove_lock_ne i j a b l.0 h;
}
