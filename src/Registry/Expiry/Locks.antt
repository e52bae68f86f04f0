-- ===== src/Registry/Expiry/Locks.antt =====
-- What `on_finalize` of pallets/vanity-registry/src/lib.rs does to the locks.
use mathlib.Core.List.{mem-cons_self, mem-cons_of_mem, not-mem-nil, eq-or-mem_of_mem-cons, Mem-prop}
use mathlib.Core.Logic.Or
use vantiy_name_registry.Base.{
  ℕ, ◌≡◌, refl, sym, ap, subst, ◌∙◌, ◌≢◌, ◌⊎◌, inl, inr, List, [], ◌∷◌, map, Mem,
}
use vantiy_name_registry.Registry.{
  Config, OwnerOf, State, num_of_commits, update_locked_fund, remove_commit, remove_owner,
  expire_commit, expire_commits, free_name, free_names,
}
use vantiy_name_registry.Registry.Funds.{
  IsFunded, lock_at, lock_for, lock_at-update_locked_fund, lock_of-update_locked_fund_ne,
}
use vantiy_name_registry.Registry.Commits
use vantiy_name_registry.Registry.Expiry.Commits.{CommitKey}
use vantiy_name_registry.Registry.Expiry.Names.{lock_periods-free_name}

module _ (T : Config) (v : IsFunded T) where
  -- An account that a list names is settled; any other keeps its lock and its commits.
  lock_at-expire_commit_self :
      (c : CommitKey T) (s : State T)
      → lock_at T c.0 (expire_commit T c s)
        ≡ lock_for T (num_of_commits T c.0 (expire_commit T c s))
  unfolding expire_commit
  lock_at-expire_commit_self c s =
      let gone = remove_commit T c.0 c.1 s in
      lock_at-update_locked_fund T c.0 gone v
      ∙ ap (lock_for T) (
          sym (
            Commits.num_of_commits_of_eq T c.0 (update_locked_fund T c.0 gone) (expire_commit T c s)
              refl
            ∙ Commits.num_of_commits-update_locked_fund T c.0 c.0 gone))

  num_of_commits-expire_commit_ne :
      (c : CommitKey T) (a : T.AccountId) (s : State T)
      → c.0 ≢ a
      → num_of_commits T a (expire_commit T c s) ≡ num_of_commits T a s
  unfolding expire_commit
  num_of_commits-expire_commit_ne c a s n =
      let gone = remove_commit T c.0 c.1 s in
      Commits.num_of_commits_of_eq T a (update_locked_fund T c.0 gone) (expire_commit T c s) refl
      ∙ Commits.num_of_commits-update_locked_fund T c.0 a gone
      ∙ Commits.num_of_commits-remove_commit_ne T c.0 a c.1 s n

  lock_of-expire_commit_ne :
      (c : CommitKey T) (i : List ℕ) (a : T.AccountId) (s : State T)
      → ◌≢◌ {A = List ℕ × T.AccountId} (T.module_id, c.0) (i, a)
      → T.currency.lock_of i a (expire_commit T c s).locks ≡ T.currency.lock_of i a s.locks
  unfolding expire_commit remove_commit
  lock_of-expire_commit_ne c i a s n =
      lock_of-update_locked_fund_ne T i c.0 a (remove_commit T c.0 c.1 s) n

  abbrev pub accounts_of : List (CommitKey T) → List T.AccountId
  accounts_of = map (λ c. c.0)

  num_of_commits-expire_commits_ne :
      (cs : List (CommitKey T)) (a : T.AccountId) (s : State T)
      → ¬ Mem a (accounts_of cs)
      → num_of_commits T a (expire_commits T cs s) ≡ num_of_commits T a s
  unfolding expire_commits
  num_of_commits-expire_commits_ne [] a s n = refl
  num_of_commits-expire_commits_ne (c ∷ cs) a s n =
      num_of_commits-expire_commits_ne cs a (expire_commit T c s) (λ m. n (mem-cons_of_mem c.0 m))
      ∙ num_of_commits-expire_commit_ne c a s (λ q. n (rw q mem-cons_self))

  pub lock_at-expire_commits_ne :
      (cs : List (CommitKey T)) (a : T.AccountId) (s : State T)
      → ¬ Mem a (accounts_of cs)
      → lock_at T a (expire_commits T cs s) ≡ lock_at T a s
  unfolding expire_commits
  lock_at-expire_commits_ne [] a s n = refl
  lock_at-expire_commits_ne (c ∷ cs) a s n =
      lock_at-expire_commits_ne cs a (expire_commit T c s) (λ m. n (mem-cons_of_mem c.0 m))
      ∙ lock_of-expire_commit_ne c T.module_id a s (λ q. n (rw (ap (λ x. x.1) q) mem-cons_self))

  abbrev pub IsSettled : T.AccountId → State T → Type 0
  IsSettled a s = lock_at T a s ≡ lock_for T (num_of_commits T a s)

  IsSettled-expire_commit :
      (c : CommitKey T) (a : T.AccountId) (s : State T)
      → (c.0 ≡ a) ⊎ IsSettled a s
      → IsSettled a (expire_commit T c s)
  IsSettled-expire_commit c a s h = elim (T.account_discrete c.0 a) [
    | yes q ↦ subst (λ x. IsSettled x (expire_commit T c s)) q (lock_at-expire_commit_self c s)
    | no n ↦ elim h [
      | inl q ↦ absurd (n q)
      | inr settled ↦
          lock_of-expire_commit_ne c T.module_id a s (λ q. n (ap (λ x. x.1) q))
          ∙ settled
          ∙ ap (lock_for T) (sym (num_of_commits-expire_commit_ne c a s n))
    ]
  ]

  pub IsSettled-expire_commits :
      (cs : List (CommitKey T)) (a : T.AccountId) (s : State T)
      → Mem a (accounts_of cs) ⊎ IsSettled a s
      → IsSettled a (expire_commits T cs s)
  unfolding expire_commits
  IsSettled-expire_commits [] a s (inl m) = absurd (not-mem-nil m)
  IsSettled-expire_commits [] a s (inr h) = h
  IsSettled-expire_commits (c ∷ cs) a s (inr h) =
      IsSettled-expire_commits cs a (expire_commit T c s)
        (inr (IsSettled-expire_commit c a s (inr h)))
  IsSettled-expire_commits (c ∷ cs) a s (inl m) =
      IsSettled-expire_commits cs a (expire_commit T c s) (elim (T.account_discrete c.0 a) [
        | yes q ↦ inr (IsSettled-expire_commit c a s (inl q))
        | no n ↦ inl (mem_tail n m)
      ])
    where
      mem_tail : c.0 ≢ a → Mem a (c.0 ∷ accounts_of cs) → Mem a (accounts_of cs)
      mem_tail n k = Or.elim Mem-prop (eq-or-mem_of_mem-cons k) (λ q. absurd (n (sym q))) (λ r. r)

  abbrev pub Entry : Type 0
  Entry = T.Name × OwnerOf T

  abbrev pub owners_of : List Entry → List T.AccountId
  owners_of = map (λ e. e.1.id)

  num_of_commits-free_name :
      (e : Entry) (a : T.AccountId) (s : State T)
      → num_of_commits T a (free_name T e s) ≡ num_of_commits T a s
  num_of_commits-free_name e a s =
      Commits.num_of_commits_of_eq T a s (free_name T e s) (lock_periods-free_name T e s)

  lock_at-free_name_self :
      (e : Entry) (s : State T)
      → lock_at T e.1.id (free_name T e s) ≡ lock_for T (num_of_commits T e.1.id (free_name T e s))
  unfolding free_name remove_owner
  lock_at-free_name_self e s =
      let gone = remove_owner T e.0 s in
      lock_at-update_locked_fund T e.1.id gone v
      ∙ ap (lock_for T) (
          Commits.num_of_commits_of_eq T e.1.id s gone refl
          ∙ sym (num_of_commits-free_name e e.1.id s))

  lock_of-free_name_ne :
      (e : Entry) (a : T.AccountId) (s : State T)
      → e.1.id ≢ a
      → lock_at T a (free_name T e s) ≡ lock_at T a s
  unfolding free_name remove_owner
  lock_of-free_name_ne e a s n =
      lock_of-update_locked_fund_ne T T.module_id e.1.id a (remove_owner T e.0 s)
        (λ q. n (ap (λ x. x.1) q))

  pub lock_at-free_names_ne :
      (es : List Entry) (a : T.AccountId) (s : State T)
      → ¬ Mem a (owners_of es)
      → lock_at T a (free_names T es s) ≡ lock_at T a s
  unfolding free_names
  lock_at-free_names_ne [] a s n = refl
  lock_at-free_names_ne (e ∷ es) a s n =
      lock_at-free_names_ne es a (free_name T e s) (λ m. n (mem-cons_of_mem e.1.id m))
      ∙ lock_of-free_name_ne e a s (λ q. n (rw q mem-cons_self))

  IsSettled-free_name :
      (e : Entry) (a : T.AccountId) (s : State T)
      → (e.1.id ≡ a) ⊎ IsSettled a s
      → IsSettled a (free_name T e s)
  IsSettled-free_name e a s h = elim (T.account_discrete e.1.id a) [
    | yes q ↦ subst (λ x. IsSettled x (free_name T e s)) q (lock_at-free_name_self e s)
    | no n ↦ elim h [
      | inl q ↦ absurd (n q)
      | inr settled ↦
          lock_of-free_name_ne e a s n
          ∙ settled
          ∙ ap (lock_for T) (sym (num_of_commits-free_name e a s))
    ]
  ]

  pub IsSettled-free_names :
      (es : List Entry) (a : T.AccountId) (s : State T)
      → Mem a (owners_of es) ⊎ IsSettled a s
      → IsSettled a (free_names T es s)
  unfolding free_names
  IsSettled-free_names [] a s (inl m) = absurd (not-mem-nil m)
  IsSettled-free_names [] a s (inr h) = h
  IsSettled-free_names (e ∷ es) a s (inr h) =
      IsSettled-free_names es a (free_name T e s) (inr (IsSettled-free_name e a s (inr h)))
  IsSettled-free_names (e ∷ es) a s (inl m) =
      IsSettled-free_names es a (free_name T e s) (elim (T.account_discrete e.1.id a) [
        | yes q ↦ inr (IsSettled-free_name e a s (inl q))
        | no n ↦ inl (mem_tail n m)
      ])
    where
      mem_tail : e.1.id ≢ a → Mem a (e.1.id ∷ owners_of es) → Mem a (owners_of es)
      mem_tail n k = Or.elim Mem-prop (eq-or-mem_of_mem-cons k) (λ q. absurd (n (sym q))) (λ r. r)
