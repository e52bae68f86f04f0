-- ===== src/Registry/Chain/Idle.antt =====
-- A registry that nobody calls: `on_finalize` of pallets/vanity-registry/src/lib.rs over many
-- blocks.
use mathlib.Core.List.{dec_mem, mem-map_of_mem, mem-append_left}
use mathlib.Core.Logic.{if_pos, if_neg}
use vantiy_name_registry.Base.{
  ℕ, zero, suc, ◌+◌, ◌<◌, ◌≡◌, refl, sym, ap, ◌∙◌, inl, inr, none, some, map, Mem, arith, leb,
  Option-cases, Bool-cases,
}
use vantiy_name_registry.Registry.{
  Config, LockPeriod, OwnerOf, State, num_of_commits, expired_names, on_finalize,
}
use vantiy_name_registry.Registry.Counting.{commit_at, num_of_commits-eq, num_of_commits-none}
use vantiy_name_registry.Registry.Commits
use vantiy_name_registry.Registry.Calls.{owner_at}
use vantiy_name_registry.Registry.Funds.{IsFunded, lock_at, lock_for}
use vantiy_name_registry.Registry.Expiry.Commits.{unexpired, mem-expired_commits}
use vantiy_name_registry.Registry.Expiry.Finalize.{
  commit_at-on_finalize, affected, lock_at-on_finalize,
}
use vantiy_name_registry.Registry.Chain.{next_block}
use vantiy_name_registry.Registry.Chain.Periods.{IsWellFormed}
use vantiy_name_registry.Registry.Chain.Periods.Reached.{
  commit_of_next_block, owner_of_next_block, block_number-next_block,
}

module _ (T : Config) where
  pub end_blocks : ℕ → State T → State T
  end_blocks zero s = s
  end_blocks (suc n) s = end_blocks n (next_block T s)

  -- What is left was there, and ends behind the last of the blocks.
  commit_of_end_blocks :
      (n : ℕ) (s : State T) (a : T.AccountId) (h : T.Hash) (p : LockPeriod)
      → commit_at T a h (end_blocks (suc n) s) ≡ some p
      → (commit_at T a h s ≡ some p) × (s.block_number + n < p.end)
  unfolding end_blocks
  commit_of_end_blocks zero s a h p e =
      let f = commit_of_next_block T s a h p e in (f.0, omega (arith, f.1))
  commit_of_end_blocks (suc n) s a h p e =
      let f = commit_of_end_blocks n (next_block T s) a h p e in
      ((commit_of_next_block T s a h p f.0).0, omega (arith, f.1, block_number-next_block T s))

  owner_of_end_blocks :
      (n : ℕ) (s : State T) (name : T.Name) (o : OwnerOf T)
      → owner_at T name (end_blocks (suc n) s) ≡ some o
      → (owner_at T name s ≡ some o) × (s.block_number + n < o.lock_period.end)
  unfolding end_blocks
  owner_of_end_blocks zero s name o e =
      let f = owner_of_next_block T s name o e in (f.0, omega (arith, f.1))
  owner_of_end_blocks (suc n) s name o e =
      let f = owner_of_end_blocks n (next_block T s) name o e in
      ((owner_of_next_block T s name o f.0).0, omega (arith, f.1, block_number-next_block T s))

  -- The lock of an account is that for its commits.
  abbrev pub IsSettledFor : T.AccountId → State T → Type 0
  IsSettledFor a s = lock_at T a s ≡ lock_for T (num_of_commits T a s)

  -- Of an account that is not affected no commit runs out.
  unexpired-unaffected :
      (now : ℕ) (s : State T) (a : T.AccountId) (h : T.Hash)
      → ¬ Mem a (affected T now s)
      → unexpired now (commit_at T a h s) ≡ commit_at T a h s
  unexpired-unaffected now s a h n = elim (Option-cases (commit_at T a h s)) [
    | inl e ↦ rw e refl
    | inr (p, e) ↦ elim (Bool-cases (leb p.end now)) [
      | inl over ↦ absurd (
          n (
            mem-append_left (map (λ e. e.1.id) (expired_names T now s)) (
              mem-map_of_mem (λ (c : T.AccountId × T.Hash). c.0)
                (mem-expired_commits T now a h p s e (ground arith)))))
      | inr later ↦ rw (e, later) refl
    ]
  ]

  IsSettledFor-on_finalize :
      (now : ℕ) (s : State T) (a : T.AccountId)
      → IsFunded T
      → IsSettledFor a s
      → IsSettledFor a (on_finalize T now s)
  IsSettledFor-on_finalize now s a v h =
      let t = on_finalize T now s in
      elim (dec_mem T.account_discrete a (affected T now s)) [
        | yes m ↦
            lock_at-on_finalize T now s a v
            ∙ if_pos (dec_mem T.account_discrete a (affected T now s)) m
                (lock_for T (num_of_commits T a t)) (lock_at T a s)
        | no n ↦
            lock_at-on_finalize T now s a v
            ∙ if_neg (dec_mem T.account_discrete a (affected T now s)) n
                (lock_for T (num_of_commits T a t)) (lock_at T a s)
            ∙ h
            ∙ ap (lock_for T) (
                sym (
                  num_of_commits-eq T a s t
                    (λ g. commit_at-on_finalize T now s a g ∙ unexpired-unaffected now s a g n)))
      ]

  IsSettledFor-next_block :
      (s : State T) (a : T.AccountId)
      → IsFunded T
      → IsSettledFor a s
      → IsSettledFor a (next_block T s)
  unfolding next_block
  IsSettledFor-next_block s a v h =
      IsSettledFor-on_finalize s.block_number s a v h
      ∙ ap (lock_for T) (
          sym (
            Commits.num_of_commits_of_eq T a (on_finalize T s.block_number s) (next_block T s)
              refl))

  IsSettledFor-end_blocks :
      (n : ℕ) (s : State T) (a : T.AccountId)
      → IsFunded T
      → IsSettledFor a s
      → IsSettledFor a (end_blocks n s)
  unfolding end_blocks
  IsSettledFor-end_blocks zero s a v h = h
  IsSettledFor-end_blocks (suc n) s a v h =
      IsSettledFor-end_blocks n (next_block T s) a v (IsSettledFor-next_block s a v h)

  commit_at-end_blocks :
      (s : State T) (a : T.AccountId) (h : T.Hash)
      → IsWellFormed T s
      → commit_at T a h (end_blocks (suc T.register_period) s) ≡ none
  commit_at-end_blocks s a h w =
      elim (Option-cases (commit_at T a h (end_blocks (suc T.register_period) s))) [
        | inl e ↦ e
        | inr (p, e) ↦
            let f = commit_of_end_blocks T.register_period s a h p e in
            absurd (omega (arith, f.1, (w.commits_current a h p f.0).bounded))
      ]

  owner_at-end_blocks :
      (s : State T) (name : T.Name)
      → IsWellFormed T s
      → owner_at T name (end_blocks (suc T.register_period) s) ≡ none
  owner_at-end_blocks s name w =
      elim (Option-cases (owner_at T name (end_blocks (suc T.register_period) s))) [
        | inl e ↦ e
        | inr (o, e) ↦
            let f = owner_of_end_blocks T.register_period s name o e in
            absurd (omega (arith, f.1, (w.owners_current name o f.0).bounded))
      ]

-- From a well-formed state, when as many blocks as a register period has, and one, have ended without a
-- call, no account has a pending commit and no name is owned.
pub end_blocks-clears :
    (T : Config) (s : State T) (a : T.AccountId) (h : T.Hash) (name : T.Name)
    → IsWellFormed T s
    → let t = end_blocks T (suc T.register_period) s in
      (commit_at T a h t ≡ none) × (owner_at T name t ≡ none) × (num_of_commits T a t ≡ 0)
end_blocks-clears T s a h name w = (
  commit_at-end_blocks T s a h w,
  owner_at-end_blocks T s name w,
  num_of_commits-none T a (end_blocks T (suc T.register_period) s)
      (λ g. commit_at-end_blocks T s a g w),
)

-- If the fund to lock is not zero, and from a well-formed state, an account whose lock was that for its
-- commits has no lock when as many blocks as a register period has, and one, have ended without a call.
pub end_blocks-unlocks :
    (T : Config) (s : State T) (a : T.AccountId)
    → IsFunded T
    → IsWellFormed T s
    → IsSettledFor T a s
    → lock_at T a (end_blocks T (suc T.register_period) s) ≡ none
end_blocks-unlocks T s a v w settled =
    IsSettledFor-end_blocks T (suc T.register_period) s a v settled
    ∙ ap (lock_for T) (
        num_of_commits-none T a (end_blocks T (suc T.register_period) s)
          (λ g. commit_at-end_blocks T s a g w))
