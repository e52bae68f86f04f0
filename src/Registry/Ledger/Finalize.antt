-- ===== src/Registry/Ledger/Finalize.antt =====
-- The end of a block of pallets/vanity-registry/src/lib.rs on what a ledger says.
use mathlib.Core.List.{Perm, perm_ext_iff_of_Nodup, dec_mem}
use mathlib.Core.List.Perm
use mathlib.Core.Logic.{if_pos, if_neg}
use mathlib.Mathlib.Data.List.Nodup
use mathlib.Mathlib.Data.Multiset.{coe-eq-coe}
use vantiy_name_registry.Base.{ℕ, ◌≡◌, sym, ap, ap₂, ◌∙◌, subst, List, ite}
use vantiy_name_registry.Registry.{
  Config, State, num_of_commits, is_expired, expired_commits, expired_names, on_finalize,
  commit_expired, name_freed,
}
use vantiy_name_registry.Registry.Counting.{commit_at, num_of_commits-eq}
use vantiy_name_registry.Registry.Calls.{owner_at}
use vantiy_name_registry.Registry.Funds.{IsFunded, lock_at, lock_for}
use vantiy_name_registry.Registry.Expiry.Commits.{unexpired}
use vantiy_name_registry.Registry.Expiry.Names.{still_owned}
use vantiy_name_registry.Registry.Expiry.Finalize.{
  commit_at-on_finalize, owner_at-on_finalize, events-on_finalize, affected, lock_at-on_finalize,
}
use vantiy_name_registry.Registry.Spec.{bytes_discrete}
use vantiy_name_registry.Registry.Expiry.Others.{other_lock-on_finalize, block_number-on_finalize}
use vantiy_name_registry.Registry.Ledger.{ledger}

ite-mem :
    {A B : Type 0} (dec : Discrete A) (a : A) (l m : List A) (x y : B)
    → Perm l m
    → ite (dec_mem dec a l) x y ≡ ite (dec_mem dec a m) x y
ite-mem dec a l m x y p = elim (dec_mem dec a l) [
  | yes k ↦
      if_pos (dec_mem dec a l) k x y ∙ sym (if_pos (dec_mem dec a m) ((Perm.mem_iff p).0 k) x y)
  | no n ↦
      if_neg (dec_mem dec a l) n x y
      ∙ sym (if_neg (dec_mem dec a m) (λ k. n ((Perm.mem_iff p).1 k)) x y)
]

module _ (T : Config) (s t : State T) (e : ledger T s ≡ ledger T t) where
  same_commit : (a : T.AccountId) (h : T.Hash) → commit_at T a h s ≡ commit_at T a h t
  unfolding ledger
  same_commit a h = ap (λ l. l.commits (a, h)) e

  same_owner : (name : T.Name) → owner_at T name s ≡ owner_at T name t
  unfolding ledger
  same_owner name = ap (λ l. l.owners name) e

  perm-commits : Perm (T.lock_periods.iter s.lock_periods) (T.lock_periods.iter t.lock_periods)
  perm-commits =
      (perm_ext_iff_of_Nodup
          (Nodup.of_map (λ x. (x.0, x.1)) (T.lock_periods.Nodup-iter s.lock_periods))
          (Nodup.of_map (λ x. (x.0, x.1)) (T.lock_periods.Nodup-iter t.lock_periods))).1
        (λ x. (
          λ m. (T.lock_periods.mem-iter x.0 x.1 x.2 t.lock_periods).1 (
              sym (same_commit x.0 x.1) ∙ (T.lock_periods.mem-iter x.0 x.1 x.2 s.lock_periods).0 m),
          λ m.
              (T.lock_periods.mem-iter x.0 x.1 x.2 s.lock_periods).1
                (same_commit x.0 x.1 ∙ (T.lock_periods.mem-iter x.0 x.1 x.2 t.lock_periods).0 m),
        ))

  perm-owners : Perm (T.owners.iter s.owners) (T.owners.iter t.owners)
  perm-owners =
      (perm_ext_iff_of_Nodup (Nodup.of_map (λ x. x.0) (T.owners.Nodup-iter s.owners))
          (Nodup.of_map (λ x. x.0) (T.owners.Nodup-iter t.owners))).1
        (λ x. (
          λ m.
              (T.owners.mem-iter x.0 x.1 t.owners).1
                (sym (same_owner x.0) ∙ (T.owners.mem-iter x.0 x.1 s.owners).0 m),
          λ m.
              (T.owners.mem-iter x.0 x.1 s.owners).1
                (same_owner x.0 ∙ (T.owners.mem-iter x.0 x.1 t.owners).0 m),
        ))

  module _ (now : ℕ) where
    perm-expired_commits : Perm (expired_commits T now s) (expired_commits T now t)
    unfolding expired_commits
    perm-expired_commits =
        Perm.map (λ x. (x.0, x.1)) (Perm.filter (λ x. is_expired T now x.2) perm-commits)

    perm-expired_names : Perm (expired_names T now s) (expired_names T now t)
    unfolding expired_names
    perm-expired_names = Perm.filter (λ x. is_expired T now x.1.lock_period) perm-owners

    perm-affected : Perm (affected T now s) (affected T now t)
    perm-affected =
        Perm.append (Perm.map (λ c. c.0) perm-expired_commits)
          (Perm.map (λ x. x.1.id) perm-expired_names)

    same_events : Perm (on_finalize T now s).events (on_finalize T now t).events
    unfolding ledger
    same_events =
        rw (events-on_finalize T now s, events-on_finalize T now t)
          (Perm.append (coe-eq-coe.0 (ap (λ l. l.events) e)) (
            Perm.append (Perm.map (λ c. commit_expired c.1 c.0) perm-expired_commits)
              (Perm.map (λ x. name_freed x.0) perm-expired_names)))

    same_count :
        (a : T.AccountId)
        → num_of_commits T a (on_finalize T now s) ≡ num_of_commits T a (on_finalize T now t)
    same_count a = num_of_commits-eq T a (on_finalize T now t) (on_finalize T now s) (λ h.
        commit_at-on_finalize T now s a h
        ∙ ap (unexpired now) (same_commit a h)
        ∙ sym (commit_at-on_finalize T now t a h))

    same_lock :
        IsFunded T
        → (k : List ℕ × T.AccountId)
        → T.currency.lock_of k.0 k.1 (on_finalize T now s).locks
          ≡ T.currency.lock_of k.0 k.1 (on_finalize T now t).locks
    unfolding ledger
    same_lock v (i, a) = elim (bytes_discrete T.module_id i) [
      | yes q ↦
          subst
            (λ j.
              T.currency.lock_of j a (on_finalize T now s).locks
              ≡ T.currency.lock_of j a (on_finalize T now t).locks)
            q own
      | no n ↦
          other_lock-on_finalize T i n a now s
          ∙ ap (λ l. l.locks (i, a)) e
          ∙ sym (other_lock-on_finalize T i n a now t)
    ]
      where
        own : lock_at T a (on_finalize T now s) ≡ lock_at T a (on_finalize T now t)
        own =
            lock_at-on_finalize T now s a v
            ∙ ite-mem T.account_discrete a (affected T now s) (affected T now t)
                (lock_for T (num_of_commits T a (on_finalize T now s))) (lock_at T a s)
                perm-affected
            ∙ ap₂ (λ c l. ite (dec_mem T.account_discrete a (affected T now t)) (lock_for T c) l)
                (same_count a) (ap (λ l. l.locks (T.module_id, a)) e)
            ∙ sym (lock_at-on_finalize T now t a v)

    -- Where two states say the same, they say the same behind the end of a block.
    pub ledger-on_finalize :
        IsFunded T → ledger T (on_finalize T now s) ≡ ledger T (on_finalize T now t)
    unfolding ledger
    ledger-on_finalize v = λ i. record {
      block_number =
          (block_number-on_finalize T now s
              ∙ ap (λ l. l.block_number) e
              ∙ sym (block_number-on_finalize T now t))
            i;
      commits = λ k.
          (commit_at-on_finalize T now s k.0 k.1
              ∙ ap (unexpired now) (same_commit k.0 k.1)
              ∙ sym (commit_at-on_finalize T now t k.0 k.1))
            i;
      count = λ a. same_count a i;
      owners = λ name.
          (owner_at-on_finalize T now s name
              ∙ ap (still_owned T now) (same_owner name)
              ∙ sym (owner_at-on_finalize T now t name))
            i;
      locks = λ k. same_lock v k i;
      events = coe-eq-coe.1 same_events i;
    }
