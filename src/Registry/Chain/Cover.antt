-- ===== src/Registry/Chain/Cover.antt =====
-- The funds that pending commits call for (pallets/vanity-registry/src/lib.rs) against the locks, in
-- the states that a chain reaches.
use mathlib.Core.Logic.{if_pos, if_neg}
use mathlib.Core.List.{dec_mem}
use vantiy_name_registry.Base.{
  ℕ, zero, suc, ◌-◌, ◌≤◌, ◌≡◌, refl, sym, ap, subst, ◌∙◌, ◌≢◌, inl, inr, Option, none, some, arith,
  Option-cases, Bool-cases,
}
use vantiy_name_registry.Base.Words.{saturating_mul, saturated_into}
use vantiy_name_registry.Frame.Dispatch.{pallet_error, ok, err}
use vantiy_name_registry.Registry.{
  Config, LockPeriod, OwnerOf, State, num_of_commits, amount_to_lock, Request, commit_call,
  name_not_owned, reveal_call, renew_call, unregister_call, dispatch, on_finalize, hash_of,
}
use vantiy_name_registry.Registry.Counting.{commit_at, num_of_commits_mono, num_of_commits-none}
use vantiy_name_registry.Registry.Commits
use vantiy_name_registry.Registry.Funds.{IsFunded, lock_at, lock_for, amount_to_lock_mono}
use vantiy_name_registry.Registry.Spec.{
  View, view, settle, later_end, add_commit, drop_commit, assign, beats, claim, as_owner,
  spec_commit, spec_reveal, spec_renew, spec_unregister, spec_signed, spec_dispatch,
  lock_key_discrete, Outcome,
}
use vantiy_name_registry.Registry.Spec.Refines.{dispatch-refines}
use vantiy_name_registry.Registry.Expiry.Commits.{unexpired}
use vantiy_name_registry.Registry.Expiry.Finalize.{
  commit_at-on_finalize, lock_at-on_finalize, affected,
}
use vantiy_name_registry.Registry.Chain.{genesis, next_block, call, seal, Reach, start, next}

module _ (T : Config) where
  abbrev pub lock_amount : Option (ℕ × T.currency.Reasons) → ℕ
  lock_amount none = 0
  lock_amount (some l) = l.0

  -- The lock of every account is enough for its pending commits.
  abbrev pub IsCovered : State T → Type 0
  IsCovered s =
      (a : T.AccountId) → amount_to_lock T (num_of_commits T a s) ≤ lock_amount (lock_at T a s)

  abbrev CoveredAt : View T → T.AccountId → Type 0
  CoveredAt v a = amount_to_lock T (v.count a) ≤ lock_amount (v.locks (T.module_id, a))

  abbrev Covered : View T → Type 0
  Covered v = (a : T.AccountId) → CoveredAt v a

  amount_to_lock-zero : amount_to_lock T 0 ≡ 0
  unfolding amount_to_lock saturating_mul saturated_into
  amount_to_lock-zero = grind arith

  lock_for-covers : (n : ℕ) → amount_to_lock T n ≤ lock_amount (lock_for T n)
  lock_for-covers zero = omega (arith, amount_to_lock-zero)
  lock_for-covers (suc n) = ground arith

  -- Who is settled is covered, whatever the lock was.
  Covered-settle :
      (who : T.AccountId) (v : View T)
      → ((a : T.AccountId) → who ≢ a → CoveredAt v a)
      → Covered (settle T who v)
  Covered-settle who v others a = elim (lock_key_discrete T (T.module_id, who) (T.module_id, a)) [
    | yes q ↦ rw (if_pos _ q) (
        subst (λ b. amount_to_lock T (v.count b) ≤ lock_amount (lock_for T (v.count who)))
          (ap (λ z. z.1) q) (lock_for-covers (v.count who)))
    | no n ↦ rw (if_neg _ n) (others a (λ q. n (ap (λ b. (T.module_id, b)) q)))
  ]

  Covered-add_commit :
      (who : T.AccountId) (hash : T.Hash) (p : LockPeriod) (v : View T)
      → Covered v
      → (a : T.AccountId) → who ≢ a
      → CoveredAt (add_commit T who hash p v) a
  Covered-add_commit who hash p v h a ne = rw (if_neg _ ne) (h a)

  Covered-drop_commit :
      (who : T.AccountId) (hash : T.Hash) (v : View T)
      → Covered v
      → Covered (drop_commit T who hash v)
  Covered-drop_commit who hash v h a = elim (T.account_discrete who a) [
    | yes q ↦ rw (if_pos _ q) (
        omega (
          arith,
          amount_to_lock_mono T (v.count who - 1) (v.count who) (omega arith),
          subst (λ b. amount_to_lock T (v.count b) ≤ lock_amount (v.locks (T.module_id, a))) (sym q)
              (h a),
        ))
    | no n ↦ rw (if_neg _ n) (h a)
  ]

  Covered-claim :
      (who : T.AccountId) (name : T.Name) (p : LockPeriod) (v : View T)
      → Covered v
      → Covered (claim T who name p v)
  Covered-claim who name p v h = elim (Bool-cases (beats T p (v.owners name))) [
    | inl b ↦ rw b h
    | inr b ↦ rw b (Covered-settle who v (λ a _. h a))
  ]

  abbrev refused : View T → Outcome T
  refused v = (err (pallet_error name_not_owned), v)

  Covered-as_owner :
      (who : T.AccountId) (o : Option (OwnerOf T)) (act : OwnerOf T → View T) (v : View T)
      → ((o : OwnerOf T) → Covered (act o))
      → Covered v
      → Covered (as_owner T who o act v).1
  Covered-as_owner who none act v ha h = h
  Covered-as_owner who (some o) act v ha h = elim (T.account_discrete o.id who) [
    | yes q ↦
        subst (λ r. Covered r.1)
          (sym (if_pos (T.account_discrete o.id who) q (ok tt, act o) (refused v))) (ha o)
    | no n ↦
        subst (λ r. Covered r.1)
          (sym (if_neg (T.account_discrete o.id who) n (ok tt, act o) (refused v))) h
  ]

  Covered-signed :
      (who : T.AccountId) (q : Request T) (v : View T)
      → Covered v
      → Covered (spec_signed T who q v).1
  unfolding spec_signed spec_commit spec_reveal spec_renew spec_unregister
  Covered-signed who (commit_call hash) v h =
      let p : LockPeriod = record { begin = v.block_number; end = later_end T v } in
      Covered-settle who (add_commit T who hash p v) (Covered-add_commit who hash p v h)
  Covered-signed who (reveal_call name) v h =
      elim (Option-cases (v.commits (who, hash_of T who name))) [
        | inl e ↦ rw e h
        | inr (p, e) ↦ rw e (
            Covered-claim who name p (drop_commit T who (hash_of T who name) v)
              (Covered-drop_commit who (hash_of T who name) v h))
      ]
  Covered-signed who (renew_call name) v h = Covered-as_owner who (v.owners name) _ v (λ o. h) h
  Covered-signed who (unregister_call name) v h =
      Covered-as_owner who (v.owners name) _ v
        (λ o. Covered-settle who (assign T name none v) (λ a _. h a)) h

  IsCovered-dispatch :
      (origin : T.Origin) (q : Request T) (s : State T)
      → IsFunded T
      → IsCovered s
      → IsCovered (dispatch T origin q s).1
  unfolding spec_dispatch view
  IsCovered-dispatch origin q s v h = elim (Option-cases (T.ensure_signed origin)) [
    | inl e ↦ subst Covered (sym (refined none e)) h
    | inr (who, e) ↦ subst Covered (sym (refined (some who) e)) (Covered-signed who q (view T s) h)
  ]
    where
      refined :
          (w : Option T.AccountId)
          → T.ensure_signed origin ≡ w
          → view T (dispatch T origin q s).1 ≡ (spec_dispatch T w q (view T s)).1
      refined w e =
          ap (λ r. r.1) (dispatch-refines T origin q s v)
          ∙ ap (λ x. (spec_dispatch T x q (view T s)).1) e

  unexpired-none : (now : ℕ) (o : Option LockPeriod) → o ≡ none → unexpired now o ≡ none
  unexpired-none now o e = ap (unexpired now) e

  num_of_commits-on_finalize-le :
      (now : ℕ) (s : State T) (a : T.AccountId)
      → num_of_commits T a (on_finalize T now s) ≤ num_of_commits T a s
  num_of_commits-on_finalize-le now s a =
      num_of_commits_mono T a (on_finalize T now s) s
        (λ g c e. c (commit_at-on_finalize T now s a g ∙ unexpired-none now (commit_at T a g s) e))

  IsCovered-on_finalize :
      (now : ℕ) (s : State T) → IsFunded T → IsCovered s → IsCovered (on_finalize T now s)
  IsCovered-on_finalize now s v h a =
      let t = on_finalize T now s in
      elim (dec_mem T.account_discrete a (affected T now s)) [
        | yes m ↦
            subst (λ l. amount_to_lock T (num_of_commits T a t) ≤ lock_amount l)
              (sym (
                lock_at-on_finalize T now s a v
                ∙ if_pos _ m (lock_for T (num_of_commits T a t)) (lock_at T a s)))
              (lock_for-covers (num_of_commits T a t))
        | no n ↦
            subst (λ l. amount_to_lock T (num_of_commits T a t) ≤ lock_amount l)
              (sym (
                lock_at-on_finalize T now s a v
                ∙ if_neg _ n (lock_for T (num_of_commits T a t)) (lock_at T a s)))
              (omega (
                arith,
                h a,
                amount_to_lock_mono T (num_of_commits T a t) (num_of_commits T a s)
                    (num_of_commits-on_finalize-le now s a),
              ))
      ]

-- In every state that a chain reaches, the pallet's lock on each account is no less than what its
-- pending commits call for, if the fund to lock is not zero.
pub Reach-IsCovered :
    (T : Config) {s : State T}
    → Reach T s
    → IsFunded T
    → (a : T.AccountId) → amount_to_lock T (num_of_commits T a s) ≤ lock_amount T (lock_at T a s)
unfolding next_block genesis
Reach-IsCovered T start v a =
    rw (num_of_commits-none T a (genesis T) (λ h. T.lock_periods.get-empty a h))
      (omega (arith, amount_to_lock-zero T))
Reach-IsCovered T (next {s} {t} r (call origin q e)) v a =
    subst (IsCovered T) (sym e) (IsCovered-dispatch T origin q s v (Reach-IsCovered T r v)) a
Reach-IsCovered T (next {s} {t} r (seal e)) v a =
    subst (IsCovered T) (sym e)
      (λ b.
        rw (Commits.num_of_commits_of_eq T b (on_finalize T s.block_number s) (next_block T s) refl)
          (IsCovered-on_finalize T s.block_number s v (Reach-IsCovered T r v) b))
      a
