-- ===== src/Registry/Chain/Periods.antt =====
-- The lock periods of pallets/vanity-registry/src/lib.rs in every state that a chain reaches.
pub mod Reached
use vantiy_name_registry.Base.{
  ℕ, suc, ◌+◌, ◌^◌, ◌≤◌, ◌<◌, ◌≡◌, refl, sym, ap, subst, ◌∙◌, ◌≢◌, inl, inr, true, false, Option,
  none, some, arith, leb, if◌then◌else◌, Option-cases, Bool-cases,
}
use vantiy_name_registry.Base.Words.{wrapping_add, wrapping_add-eq}
use vantiy_name_registry.Registry.{
  Config, LockPeriod, Owner, OwnerOf, State, hash_of, Request, commit_call, reveal_call, renew_call,
  unregister_call, dispatch, update_locked_fund, insert_commit, remove_commit, insert_owner,
  remove_owner, deposit_event, is_discredited, commit, reveal, renew, unregister, on_finalize,
  reveal_discredited, name_owned, name_freed,
}
use vantiy_name_registry.Registry.Counting.{commit_at}
use vantiy_name_registry.Registry.Funds.{update_locked_fund_frame}
use vantiy_name_registry.Registry.Entries.{
  commit_of_insert_commit, commit_of_remove_commit, owner_of_insert_owner, owner_of_remove_owner,
}
use vantiy_name_registry.Registry.Calls.{
  owner_at, new_end, new_period, reveal_found, commit_lem, reveal_unknown, reveal_known,
  renew_owned, renew_not_owned, renew_not_found, unregister_owned, unregister_not_owned,
  unregister_not_found,
}
use vantiy_name_registry.Registry.Outcomes.{dispatch_unsigned}
use vantiy_name_registry.Registry.Expiry.Commits.{unexpired}
use vantiy_name_registry.Registry.Expiry.Names.{still_owned}
use vantiy_name_registry.Registry.Expiry.Finalize.{on_finalize_expires}
use vantiy_name_registry.Registry.Chain.{genesis, next_block, Step, call, seal, Reach, start, next}

-- A period that is no later than block `now`, has not run out before it, and is a register period
-- long, or longer by renewals but not beyond a register period from now.
pub record IsCurrent (T : Config) (now : ℕ) (p : LockPeriod) : Type 0 where
  pub begun : p.begin ≤ now
  pub open_yet : now ≤ p.end
  pub full : p.begin + T.register_period ≤ p.end
  pub bounded : p.end ≤ now + T.register_period

-- Every entry of the two maps is current, a commit is exactly a register period long, and an owner
-- holds its name by a commit to that name.
pub record IsWellFormed (T : Config) (s : State T) : Type 0 where
  pub commits_current :
      (a : T.AccountId) (h : T.Hash) (p : LockPeriod)
      → commit_at T a h s ≡ some p
      → IsCurrent T s.block_number p
  pub commits_exact :
      (a : T.AccountId) (h : T.Hash) (p : LockPeriod)
      → commit_at T a h s ≡ some p
      → p.end ≡ p.begin + T.register_period
  pub owners_current :
      (n : T.Name) (o : OwnerOf T)
      → owner_at T n s ≡ some o
      → IsCurrent T s.block_number o.lock_period
  pub owners_committed :
      (n : T.Name) (o : OwnerOf T) → owner_at T n s ≡ some o → o.commit ≡ hash_of T o.id n

-- No lock period that is made in the block of the state wraps.
abbrev pub Fits : (T : Config) → State T → Type 0
Fits T s = s.block_number + T.register_period < 2 ^ T.block_number_bits

module _ (T : Config) where
  abbrev pub Formed : State T → Type 0
  Formed = IsWellFormed T

  pub Formed-of_eq :
      (s t : State T)
      → t.owners ≡ s.owners
      → t.lock_periods ≡ s.lock_periods
      → t.block_number ≡ s.block_number
      → Formed s
      → Formed t
  Formed-of_eq s t eo ec eb h = record {
    commits_current = λ a g p e.
        subst (λ n. IsCurrent T n p) (sym eb)
          (h.commits_current a g p (sym (ap (T.lock_periods.get a g) ec) ∙ e));
    commits_exact = λ a g p e. h.commits_exact a g p (sym (ap (T.lock_periods.get a g) ec) ∙ e);
    owners_current = λ n o e.
        subst (λ k. IsCurrent T k o.lock_period) (sym eb)
          (h.owners_current n o (sym (ap (T.owners.get n) eo) ∙ e));
    owners_committed = λ n o e. h.owners_committed n o (sym (ap (T.owners.get n) eo) ∙ e);
  }

  pub Formed-update_locked_fund :
      (id : T.AccountId) (s : State T) → Formed s → Formed (update_locked_fund T id s)
  Formed-update_locked_fund id s h =
      let e = update_locked_fund_frame T id s in
      Formed-of_eq s (update_locked_fund T id s) (ap (λ (z : State T). z.owners) e)
        (ap (λ (z : State T). z.lock_periods) e) (ap (λ (z : State T). z.block_number) e) h

  new_end-eq : (s : State T) → Fits T s → new_end T s ≡ s.block_number + T.register_period
  new_end-eq s f = wrapping_add-eq T.block_number_bits s.block_number T.register_period f

  IsCurrent-new_period : (s : State T) → Fits T s → IsCurrent T s.block_number (new_period T s)
  IsCurrent-new_period s f = omega (arith, new_end-eq s f)

  IsCurrent-of_eq : (n : ℕ) (p q : LockPeriod) → p ≡ q → IsCurrent T n p → IsCurrent T n q
  IsCurrent-of_eq n p q e h = subst (IsCurrent T n) e h

  pub Formed-insert_commit :
      (x : T.AccountId) (hash : T.Hash) (s : State T)
      → Fits T s
      → Formed s
      → Formed (insert_commit T x hash (new_period T s) s)
  unfolding insert_commit
  Formed-insert_commit x hash s f h = record {
    commits_current = λ a g q e.
        elim (commit_of_insert_commit T x a hash g (new_period T s) q s e) [
          | inl (_, same) ↦ IsCurrent-of_eq _ _ q same (IsCurrent-new_period s f)
          | inr old ↦ h.commits_current a g q old
        ];
    commits_exact = λ a g q e. elim (commit_of_insert_commit T x a hash g (new_period T s) q s e) [
      | inl (_, same) ↦
          subst (λ (z : LockPeriod). z.end ≡ z.begin + T.register_period) same (new_end-eq s f)
      | inr old ↦ h.commits_exact a g q old
    ];
    owners_current = h.owners_current;
    owners_committed = h.owners_committed;
  }

  pub Formed-remove_commit :
      (x : T.AccountId) (hash : T.Hash) (s : State T) → Formed s → Formed (remove_commit T x hash s)
  unfolding remove_commit
  Formed-remove_commit x hash s h = record {
    commits_current =
        λ a g q e. h.commits_current a g q (commit_of_remove_commit T x a hash g q s e);
    commits_exact = λ a g q e. h.commits_exact a g q (commit_of_remove_commit T x a hash g q s e);
    owners_current = h.owners_current;
    owners_committed = h.owners_committed;
  }

  pub Formed-insert_owner :
      (m : T.Name) (o : OwnerOf T) (s : State T)
      → IsCurrent T s.block_number o.lock_period
      → o.commit ≡ hash_of T o.id m
      → Formed s
      → Formed (insert_owner T m o s)
  unfolding insert_owner
  Formed-insert_owner m o s c k h = record {
    commits_current = h.commits_current;
    commits_exact = h.commits_exact;
    owners_current = λ n o' e. elim (owner_of_insert_owner T m n o o' s e) [
      | inl (_, same) ↦ subst (λ (z : OwnerOf T). IsCurrent T s.block_number z.lock_period) same c
      | inr old ↦ h.owners_current n o' old
    ];
    owners_committed = λ n o' e. elim (owner_of_insert_owner T m n o o' s e) [
      | inl (q, same) ↦
          subst (λ (z : OwnerOf T). z.commit ≡ hash_of T z.id n) same
            (subst (λ z. o.commit ≡ hash_of T o.id z) q k)
      | inr old ↦ h.owners_committed n o' old
    ];
  }

  pub Formed-remove_owner : (m : T.Name) (s : State T) → Formed s → Formed (remove_owner T m s)
  unfolding remove_owner
  Formed-remove_owner m s h = record {
    commits_current = h.commits_current;
    commits_exact = h.commits_exact;
    owners_current = λ n o e. h.owners_current n o (owner_of_remove_owner T m n o s e);
    owners_committed = λ n o e. h.owners_committed n o (owner_of_remove_owner T m n o s e);
  }

  pub Formed-reveal_found :
      (x : T.AccountId) (m : T.Name) (q : LockPeriod) (s : State T)
      → commit_at T x (hash_of T x m) s ≡ some q
      → Formed s
      → Formed (reveal_found T x m q s)
  unfolding remove_commit
  Formed-reveal_found x m q s e h =
      let hash = hash_of T x m in
      let taken = remove_commit T x hash s in
      let owner : OwnerOf T = record { id = x; commit = hash; lock_period = q } in
      let kept = Formed-remove_commit x hash s h in
      elim (Bool-cases (is_discredited T (owner_at T m s) q)) [
        | inl d ↦ rw d (
            Formed-of_eq (update_locked_fund T x taken)
              (deposit_event T (reveal_discredited m x) (update_locked_fund T x taken)) refl refl
              refl (Formed-update_locked_fund x taken kept))
        | inr d ↦ rw d (
            Formed-of_eq (insert_owner T m owner taken)
              (deposit_event T (name_owned m x) (insert_owner T m owner taken)) refl refl refl
              (Formed-insert_owner m owner taken (h.commits_current x hash q e) refl kept))
      ]

  -- A renewal moves the end to a register period from now.
  pub IsCurrent-renewed :
      (s : State T) (p : LockPeriod)
      → Fits T s
      → IsCurrent T s.block_number p
      → IsCurrent T s.block_number (record { begin = p.begin; end = new_end T s })
  IsCurrent-renewed s p f c = omega (arith, new_end-eq s f)

  pub IsCurrent-unexpired :
      (n : ℕ) (p : LockPeriod) → ¬ (p.end ≤ n) → IsCurrent T n p → IsCurrent T (suc n) p
  IsCurrent-unexpired n p late c = omega arith
