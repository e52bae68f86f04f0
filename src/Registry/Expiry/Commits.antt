-- ===== src/Registry/Expiry/Commits.antt =====
-- `remove_expired_commits` of pallets/vanity-registry/src/lib.rs: which commits are left, and what
-- becomes of the locks.
use mathlib.Core.HLevel.{⊥_prop}
use mathlib.Core.Logic.{∥∥₁_elim}
use mathlib.Core.Logic.Or
use mathlib.Core.List.{
  not-mem-nil, mem-cons_self, mem-cons_of_mem, eq-or-mem_of_mem-cons, mem-map_of_mem,
  exists_of_mem-map, mem-filter, append_assoc, append-nil,
}
use native.Mathlib.Nat.{ℕ_set}
use vantiy_name_registry.Base.{
  ℕ, ◌≤◌, ◌≡◌, refl, sym, ap, subst, ◌∙◌, ◌≢◌, inl, inr, Option, none, some, List, [], ◌∷◌, ◌++◌,
  map, Mem, arith, leb, if◌then◌else◌, Option-cases, Bool-cases,
}
use vantiy_name_registry.Registry.{
  Config, LockPeriod, EventOf, commit_expired, State, remove_commit, expired_commits, expire_commit,
  expire_commits, remove_expired_commits, is_expired,
}
use vantiy_name_registry.Registry.Counting.{commit_at}
use vantiy_name_registry.Registry.Funds.{update_locked_fund_frame}
use vantiy_name_registry.Registry.Commits

-- What is left of an entry with a lock period at the end of block `now`.
abbrev pub unexpired : ℕ → Option LockPeriod → Option LockPeriod
unexpired now none = none
unexpired now (some p) = if leb p.end now then none else some p

pub end-le_of_some :
    (now : ℕ) (p q : LockPeriod)
    → ◌≡◌ {A = Option LockPeriod} (some p) (some q)
    → p.end ≤ now
    → q.end ≤ now
end-le_of_some now p q e h = ground arith

module _ (T : Config) where
  abbrev pub CommitKey : Type 0
  CommitKey = T.AccountId × T.Hash

  commit_at-expire_commit_self :
      (c : CommitKey) (s : State T) → commit_at T c.0 c.1 (expire_commit T c s) ≡ none
  unfolding expire_commit
  commit_at-expire_commit_self c s =
      Commits.commit_at-update_locked_fund T c.0 c.0 c.1 (remove_commit T c.0 c.1 s)
      ∙ Commits.commit_at-remove_commit_self T c.0 c.1 s

  commit_at-expire_commit_ne :
      (c : CommitKey) (a : T.AccountId) (h : T.Hash) (s : State T)
      → ◌≢◌ {A = CommitKey} c (a, h)
      → commit_at T a h (expire_commit T c s) ≡ commit_at T a h s
  unfolding expire_commit
  commit_at-expire_commit_ne c a h s n =
      Commits.commit_at-update_locked_fund T c.0 a h (remove_commit T c.0 c.1 s)
      ∙ Commits.commit_at-remove_commit_ne T c.0 a c.1 h s n

  -- What is not in the list stays.
  commit_at-expire_commits_kept :
      (cs : List CommitKey) (a : T.AccountId) (h : T.Hash) (s : State T)
      → ¬ Mem {A = CommitKey} (a, h) cs
      → commit_at T a h (expire_commits T cs s) ≡ commit_at T a h s
  unfolding expire_commits
  commit_at-expire_commits_kept [] a h s n = refl
  commit_at-expire_commits_kept (c ∷ cs) a h s n =
      commit_at-expire_commits_kept cs a h (expire_commit T c s) (λ m. n (mem-cons_of_mem c m))
      ∙ commit_at-expire_commit_ne c a h s (λ e. n (rw e mem-cons_self))

  -- What is gone stays gone, and what is in the list goes.
  commit_at-expire_commits-none :
      (cs : List CommitKey) (a : T.AccountId) (h : T.Hash) (s : State T)
      → commit_at T a h s ≡ none
      → commit_at T a h (expire_commits T cs s) ≡ none
  unfolding expire_commits
  commit_at-expire_commits-none [] a h s e = e
  commit_at-expire_commits-none (c ∷ cs) a h s e =
      commit_at-expire_commits-none cs a h (expire_commit T c s) (elim (key_dec c (a, h)) [
        | yes q ↦
            subst (λ (k : CommitKey). commit_at T k.0 k.1 (expire_commit T c s) ≡ none) q
              (commit_at-expire_commit_self c s)
        | no n ↦ commit_at-expire_commit_ne c a h s n ∙ e
      ])
    where
      key_dec : Discrete CommitKey
      key_dec = hlevel (T.account_discrete, T.hash_discrete)

  commit_at-expire_commits_gone :
      (cs : List CommitKey) (a : T.AccountId) (h : T.Hash) (s : State T)
      → Mem {A = CommitKey} (a, h) cs
      → commit_at T a h (expire_commits T cs s) ≡ none
  unfolding expire_commits
  commit_at-expire_commits_gone [] a h s m = absurd (not-mem-nil m)
  commit_at-expire_commits_gone (c ∷ cs) a h s m =
      Or.elim (option_set _ _) (eq-or-mem_of_mem-cons m)
        (λ q. commit_at-expire_commits-none cs a h (expire_commit T c s) (
          subst (λ (k : CommitKey). commit_at T k.0 k.1 (expire_commit T c s) ≡ none) (sym q)
            (commit_at-expire_commit_self c s)))
        (λ r. commit_at-expire_commits_gone cs a h (expire_commit T c s) r)
    where
      option_set : IsSet (Option LockPeriod)
      option_set = hlevel ℕ_set

  pub mem-expired_commits :
      (now : ℕ) (a : T.AccountId) (h : T.Hash) (p : LockPeriod) (s : State T)
      → commit_at T a h s ≡ some p
      → p.end ≤ now
      → Mem {A = CommitKey} (a, h) (expired_commits T now s)
  unfolding expired_commits
  mem-expired_commits now a h p s e le =
      mem-map_of_mem (λ (x : T.AccountId × T.Hash × LockPeriod). (x.0, x.1))
        ((mem-filter (λ x. is_expired T now x.2)).1
          ((T.lock_periods.mem-iter a h p s.lock_periods).1 e, le))

  not-mem-expired_commits :
      (now : ℕ) (a : T.AccountId) (h : T.Hash) (p : LockPeriod) (s : State T)
      → commit_at T a h s ≡ some p
      → ¬ (p.end ≤ now)
      → ¬ Mem {A = CommitKey} (a, h) (expired_commits T now s)
  unfolding expired_commits
  not-mem-expired_commits now a h p s e late m = ∥∥₁_elim (exists_of_mem-map m) ⊥_prop (λ w.
      let f = (mem-filter (λ x. is_expired T now x.2)).0 w.1 in
      let at = (T.lock_periods.mem-iter w.0.0 w.0.1 w.0.2 s.lock_periods).0 f.0 in
      let found : commit_at T a h s ≡ some w.0.2 =
        subst (λ (k : CommitKey). commit_at T k.0 k.1 s ≡ some w.0.2) w.2 at in
      late (end-le_of_some now w.0.2 p (sym found ∙ e) f.1))

  -- At the end of block `now` exactly the commits whose period is not over are left.
  pub commit_at-remove_expired_commits :
      (now : ℕ) (a : T.AccountId) (h : T.Hash) (s : State T)
      → commit_at T a h (remove_expired_commits T now s) ≡ unexpired now (commit_at T a h s)
  unfolding remove_expired_commits
  commit_at-remove_expired_commits now a h s = elim (Option-cases (commit_at T a h s)) [
    | inl e ↦
        commit_at-expire_commits-none (expired_commits T now s) a h s e ∙ ap (unexpired now) (sym e)
    | inr (p, e) ↦ still p e ∙ ap (unexpired now) (sym e)
  ]
    where
      still :
          (p : LockPeriod)
          → commit_at T a h s ≡ some p
          → commit_at T a h (expire_commits T (expired_commits T now s) s) ≡ unexpired now (some p)
      still p e = elim (Bool-cases (leb p.end now)) [
        | inl over ↦ rw over (
            commit_at-expire_commits_gone (expired_commits T now s) a h s
              (mem-expired_commits now a h p s e (ground arith)))
        | inr open_still ↦ rw open_still (
            commit_at-expire_commits_kept (expired_commits T now s) a h s
              (not-mem-expired_commits now a h p s e (λ l. ground arith))
            ∙ e)
      ]

  -- Every expired commit is announced once, after what was announced before, and nothing else is.
  events-expire_commits :
      (cs : List CommitKey) (s : State T)
      → (expire_commits T cs s).events ≡ s.events ++ map (λ c. commit_expired c.1 c.0) cs
  unfolding expire_commits expire_commit remove_commit
  events-expire_commits [] s = sym (append-nil s.events)
  events-expire_commits (c ∷ cs) s =
      let gone = remove_commit T c.0 c.1 s in
      events-expire_commits cs (expire_commit T c s)
      ∙ ap
          (λ (l : List (EventOf T)).
            (l ++ commit_expired c.1 c.0 ∷ []) ++ map (λ x. commit_expired x.1 x.0) cs)
          (ap (λ (x : State T). x.events) (update_locked_fund_frame T c.0 gone))
      ∙ append_assoc s.events (commit_expired c.1 c.0 ∷ []) (map (λ x. commit_expired x.1 x.0) cs)

  pub events-remove_expired_commits :
      (now : ℕ) (s : State T)
      → (remove_expired_commits T now s).events
        ≡ s.events ++ map (λ c. commit_expired c.1 c.0) (expired_commits T now s)
  unfolding remove_expired_commits
  events-remove_expired_commits now s = events-expire_commits (expired_commits T now s) s

  pub owners-expire_commits :
      (cs : List CommitKey) (s : State T) → (expire_commits T cs s).owners ≡ s.owners
  unfolding expire_commits expire_commit remove_commit
  owners-expire_commits [] s = refl
  owners-expire_commits (c ∷ cs) s =
      owners-expire_commits cs (expire_commit T c s)
      ∙ ap (λ (x : State T). x.owners) (update_locked_fund_frame T c.0 (remove_commit T c.0 c.1 s))

  pub block_number-expire_commits :
      (cs : List CommitKey) (s : State T) → (expire_commits T cs s).block_number ≡ s.block_number
  unfolding expire_commits expire_commit remove_commit
  block_number-expire_commits [] s = refl
  block_number-expire_commits (c ∷ cs) s =
      block_number-expire_commits cs (expire_commit T c s)
      ∙ ap (λ (x : State T). x.block_number)
          (update_locked_fund_frame T c.0 (remove_commit T c.0 c.1 s))
