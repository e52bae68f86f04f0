-- ===== src/Registry/Entries.antt =====
-- Where an entry of the two maps of pallets/vanity-registry/src/lib.rs comes from, read backwards
-- over each write.
use vantiy_name_registry.Base.{
  ℕ, ◌≤◌, ◌≡◌, refl, sym, ap, subst, ◌∙◌, ◌≢◌, ◌⊎◌, inl, inr, none, some, arith,
}
use vantiy_name_registry.Registry.{
  Config, LockPeriod, OwnerOf, State, insert_commit, remove_commit, insert_owner, remove_owner,
  update_locked_fund,
}
use vantiy_name_registry.Registry.Counting.{commit_at}
use vantiy_name_registry.Registry.Commits
use vantiy_name_registry.Registry.Calls.{owner_at}
use vantiy_name_registry.Registry.Funds.{update_locked_fund_frame}

module _ (T : Config) where
  commit_key_dec : Discrete (T.AccountId × T.Hash)
  commit_key_dec = hlevel (T.account_discrete, T.hash_discrete)

  -- After an insertion an entry is the new one or an old one.
  pub commit_of_insert_commit :
      (x y : T.AccountId) (h g : T.Hash) (p q : LockPeriod) (s : State T)
      → commit_at T y g (insert_commit T x h p s) ≡ some q
      → (◌≡◌ {A = T.AccountId × T.Hash} (x, h) (y, g) × (p ≡ q)) ⊎ (commit_at T y g s ≡ some q)
  commit_of_insert_commit x y h g p q s e = elim (commit_key_dec (x, h) (y, g)) [
    | yes k ↦ inl (k, cc (new_entry k, e))
    | no n ↦ inr (sym (Commits.commit_at-insert_commit_ne T x y h g p s n) ∙ e)
  ]
    where
      new_entry :
          ◌≡◌ {A = T.AccountId × T.Hash} (x, h) (y, g)
          → commit_at T y g (insert_commit T x h p s) ≡ some p
      new_entry k =
          subst
            (λ (z : T.AccountId × T.Hash). commit_at T z.0 z.1 (insert_commit T x h p s) ≡ some p) k
            (Commits.commit_at-insert_commit_self T x h p s)

  pub commit_of_remove_commit :
      (x y : T.AccountId) (h g : T.Hash) (q : LockPeriod) (s : State T)
      → commit_at T y g (remove_commit T x h s) ≡ some q
      → commit_at T y g s ≡ some q
  commit_of_remove_commit x y h g q s e = elim (commit_key_dec (x, h) (y, g)) [
    | yes k ↦ cc (no_entry k, e)
    | no n ↦ sym (Commits.commit_at-remove_commit_ne T x y h g s n) ∙ e
  ]
    where
      no_entry :
          ◌≡◌ {A = T.AccountId × T.Hash} (x, h) (y, g)
          → commit_at T y g (remove_commit T x h s) ≡ none
      no_entry k =
          subst (λ (z : T.AccountId × T.Hash). commit_at T z.0 z.1 (remove_commit T x h s) ≡ none) k
            (Commits.commit_at-remove_commit_self T x h s)

  pub owner_at-insert_owner_self :
      (m : T.Name) (o : OwnerOf T) (s : State T) → owner_at T m (insert_owner T m o s) ≡ some o
  unfolding insert_owner
  owner_at-insert_owner_self m o s = T.owners.get-insert_self m o s.owners

  pub owner_at-remove_owner_self :
      (m : T.Name) (s : State T) → owner_at T m (remove_owner T m s) ≡ none
  unfolding remove_owner
  owner_at-remove_owner_self m s = T.owners.get-remove_self m s.owners

  pub commit_at-insert_owner :
      (x : T.AccountId) (h : T.Hash) (m : T.Name) (o : OwnerOf T) (s : State T)
      → commit_at T x h (insert_owner T m o s) ≡ commit_at T x h s
  unfolding insert_owner
  commit_at-insert_owner x h m o s = refl

  pub commit_at-remove_owner :
      (x : T.AccountId) (h : T.Hash) (m : T.Name) (s : State T)
      → commit_at T x h (remove_owner T m s) ≡ commit_at T x h s
  unfolding remove_owner
  commit_at-remove_owner x h m s = refl

  pub owner_at-insert_owner_ne :
      (m n : T.Name) (o : OwnerOf T) (s : State T)
      → m ≢ n
      → owner_at T n (insert_owner T m o s) ≡ owner_at T n s
  unfolding insert_owner
  owner_at-insert_owner_ne m n o s ne = T.owners.get-insert_ne m n o s.owners ne

  pub owner_at-remove_owner_ne :
      (m n : T.Name) (s : State T) → m ≢ n → owner_at T n (remove_owner T m s) ≡ owner_at T n s
  unfolding remove_owner
  owner_at-remove_owner_ne m n s ne = T.owners.get-remove_ne m n s.owners ne

  pub owner_of_insert_owner :
      (m n : T.Name) (o o' : OwnerOf T) (s : State T)
      → owner_at T n (insert_owner T m o s) ≡ some o'
      → ((m ≡ n) × (o ≡ o')) ⊎ (owner_at T n s ≡ some o')
  owner_of_insert_owner m n o o' s e = elim (T.name_discrete m n) [
    | yes k ↦ inl (
      k,
      cc (
        subst (λ z. owner_at T z (insert_owner T m o s) ≡ some o) k
            (owner_at-insert_owner_self m o s),
        e,
      ),
    )
    | no ne ↦ inr (sym (owner_at-insert_owner_ne m n o s ne) ∙ e)
  ]

  pub owner_of_remove_owner :
      (m n : T.Name) (o : OwnerOf T) (s : State T)
      → owner_at T n (remove_owner T m s) ≡ some o
      → owner_at T n s ≡ some o
  unfolding remove_owner
  owner_of_remove_owner m n o s e = elim (T.name_discrete m n) [
    | yes k ↦ cc (
      subst (λ z. owner_at T z (remove_owner T m s) ≡ none) k (T.owners.get-remove_self m s.owners),
      e,
    )
    | no ne ↦ sym (owner_at-remove_owner_ne m n s ne) ∙ e
  ]

  pub owner_at-update_locked_fund :
      (id : T.AccountId) (n : T.Name) (s : State T)
      → owner_at T n (update_locked_fund T id s) ≡ owner_at T n s
  owner_at-update_locked_fund id n s =
      ap (λ (x : State T). T.owners.get n x.owners) (update_locked_fund_frame T id s)

  pub block_number-update_locked_fund :
      (id : T.AccountId) (s : State T) → (update_locked_fund T id s).block_number ≡ s.block_number
  block_number-update_locked_fund id s =
      ap (λ (x : State T). x.block_number) (update_locked_fund_frame T id s)

-- What a period says carries over to the same period.
pub begin-le_of_eq : (b : ℕ) (p q : LockPeriod) → p ≡ q → b ≤ p.begin → b ≤ q.begin
begin-le_of_eq b p q e h = ground arith
