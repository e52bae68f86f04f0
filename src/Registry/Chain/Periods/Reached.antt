-- ===== src/Registry/Chain/Periods/Reached.antt =====
-- The lock periods of pallets/vanity-registry/src/lib.rs over the steps of a chain.
use vantiy_name_registry.Base.{
  ℕ, suc, ◌≤◌, ◌≡◌, refl, sym, ap, subst, ◌∙◌, Option, none, some, arith,
}
use vantiy_name_registry.Registry.{
  Config, LockPeriod, OwnerOf, State, Request, commit_call, reveal_call, renew_call,
  unregister_call, dispatch, update_locked_fund, insert_commit, remove_owner, deposit_event,
  name_freed,
}
use vantiy_name_registry.Registry.Counting.{commit_at}
use vantiy_name_registry.Registry.Calls.{owner_at, new_period}
use vantiy_name_registry.Registry.Transitions.{
  renewed_owner, Transition, Transition-reveal_found, commit_made, name_renewed, name_given_up,
  dispatch_preserves,
}
use vantiy_name_registry.Registry.Blocks.{block_number-dispatch}
use vantiy_name_registry.Registry.Expiry.Commits.{unexpired}
use vantiy_name_registry.Registry.Expiry.Names.{still_owned}
use vantiy_name_registry.Registry.Expiry.Finalize.{commit_at-on_finalize, owner_at-on_finalize}
use vantiy_name_registry.Registry.Chain.{genesis, next_block, Step, call, seal, Reach, start, next}
use vantiy_name_registry.Registry.Chain.Periods.{
  IsCurrent, IsWellFormed, Fits, Formed, Formed-update_locked_fund, Formed-insert_commit,
  Formed-insert_owner, Formed-remove_owner, Formed-reveal_found, Formed-of_eq, IsCurrent-renewed,
  IsCurrent-unexpired,
}

module _ (T : Config) where
  unexpired-inversion :
      (n : ℕ) (o : Option LockPeriod) (p : LockPeriod)
      → unexpired n o ≡ some p
      → (o ≡ some p) × ¬ (p.end ≤ n)
  unexpired-inversion n none p e = cc
  unexpired-inversion n (some q) p e = ground arith

  still_owned-inversion :
      (n : ℕ) (m : Option (OwnerOf T)) (o : OwnerOf T)
      → still_owned T n m ≡ some o
      → (m ≡ some o) × ¬ (o.lock_period.end ≤ n)
  still_owned-inversion n none o e = cc
  still_owned-inversion n (some q) o e = ground arith

  pub block_number-next_block : (s : State T) → (next_block T s).block_number ≡ suc s.block_number
  unfolding next_block
  block_number-next_block s = refl

  -- Where an entry comes from that is there in the next block.
  pub commit_of_next_block :
      (s : State T) (a : T.AccountId) (g : T.Hash) (p : LockPeriod)
      → commit_at T a g (next_block T s) ≡ some p
      → (commit_at T a g s ≡ some p) × ¬ (p.end ≤ s.block_number)
  unfolding next_block
  commit_of_next_block s a g p e =
      unexpired-inversion s.block_number (commit_at T a g s) p
        (sym (commit_at-on_finalize T s.block_number s a g) ∙ e)

  pub owner_of_next_block :
      (s : State T) (n : T.Name) (o : OwnerOf T)
      → owner_at T n (next_block T s) ≡ some o
      → (owner_at T n s ≡ some o) × ¬ (o.lock_period.end ≤ s.block_number)
  unfolding next_block
  owner_of_next_block s n o e =
      still_owned-inversion s.block_number (owner_at T n s) o
        (sym (owner_at-on_finalize T s.block_number s n) ∙ e)

  Formed-next_block : (s : State T) → Formed T s → Formed T (next_block T s)
  Formed-next_block s h = record {
    commits_current = λ a g p e.
        let f = commit_of_next_block s a g p e in
        subst (λ n. IsCurrent T n p) (sym (block_number-next_block s))
          (IsCurrent-unexpired T s.block_number p f.1 (h.commits_current a g p f.0));
    commits_exact = λ a g p e. h.commits_exact a g p (commit_of_next_block s a g p e).0;
    owners_current = λ n o e.
        let f = owner_of_next_block s n o e in
        subst (λ k. IsCurrent T k o.lock_period) (sym (block_number-next_block s))
          (IsCurrent-unexpired T s.block_number o.lock_period f.1 (h.owners_current n o f.0));
    owners_committed = λ n o e. h.owners_committed n o (owner_of_next_block s n o e).0;
  }

Formed-Transition :
    (T : Config) (x : T.AccountId) (q : Request T) (s t : State T)
    → Fits T s
    → Transition T x s t q
    → Formed T s
    → Formed T t
Formed-Transition T x (commit_call hash) s t f (commit_made e) h = subst (Formed T) (sym e) (
    Formed-update_locked_fund T x (insert_commit T x hash (new_period T s) s)
      (Formed-insert_commit T x hash s f h))
Formed-Transition T x (reveal_call m) s t f step h =
    let (p, c, e) = Transition-reveal_found T x m s t step in
    subst (Formed T) e (Formed-reveal_found T x m p s c h)
Formed-Transition T x (renew_call m) s t f (name_renewed {o} c d e) h = subst (Formed T) (sym e) (
    Formed-insert_owner T m (renewed_owner T o s) s
      (IsCurrent-renewed T s o.lock_period f (h.owners_current m o c)) (h.owners_committed m o c) h)
Formed-Transition T x (unregister_call m) s t f (name_given_up c d e) h =
    let gone = remove_owner T m s in
    subst (Formed T) (sym e) (
      Formed-of_eq T (update_locked_fund T x gone)
        (deposit_event T (name_freed m) (update_locked_fund T x gone)) refl refl refl
        (Formed-update_locked_fund T x gone (Formed-remove_owner T m s h)))

-- A call keeps every entry well formed, unless a period that it makes wraps.
pub IsWellFormed-dispatch :
    (T : Config) (origin : T.Origin) (q : Request T) (s : State T)
    → Fits T s
    → IsWellFormed T s
    → IsWellFormed T (dispatch T origin q s).1
IsWellFormed-dispatch T origin q s f h =
    dispatch_preserves T origin q s (IsWellFormed T) h
      (λ x t by step. Formed-Transition T x q s t f step h)

genesis-IsWellFormed : (T : Config) → IsWellFormed T (genesis T)
unfolding genesis
genesis-IsWellFormed T = record {
  commits_current = λ a g p e. cc (T.lock_periods.get-empty a g, e);
  commits_exact = λ a g p e. cc (T.lock_periods.get-empty a g, e);
  owners_current = λ n o e. cc (T.owners.get-empty n, e);
  owners_committed = λ n o e. cc (T.owners.get-empty n, e);
}

IsWellFormed-Step :
    (T : Config) {s t : State T} → Step T s t → Fits T s → IsWellFormed T s → IsWellFormed T t
IsWellFormed-Step T {s} (call origin q e) f h =
    subst (IsWellFormed T) (sym e) (IsWellFormed-dispatch T origin q s f h)
IsWellFormed-Step T {s} (seal e) f h = subst (IsWellFormed T) (sym e) (Formed-next_block T s h)

-- The block number never falls.
block_number-Step : (T : Config) {s t : State T} → Step T s t → s.block_number ≤ t.block_number
block_number-Step T {s} {t} (call origin q e) =
    omega (arith, ap (λ (x : State T). x.block_number) e, block_number-dispatch T origin q s)
block_number-Step T {s} {t} (seal e) =
    omega (arith, ap (λ (x : State T). x.block_number) e, block_number-next_block T s)

-- In every state that a chain reaches before its block numbers wrap, each commit and each owner has a
-- lock period that began no later than now, has not run out, is at least the register period long and
-- ends at most the register period from now; a commit's is exactly the register period long, and each
-- owner holds its name by the commit to that name.
pub Reach-IsWellFormed : (T : Config) {s : State T} → Reach T s → Fits T s → IsWellFormed T s
Reach-IsWellFormed T start f = genesis-IsWellFormed T
Reach-IsWellFormed T (next {s} {t} r st) f =
    let before : Fits T s = omega (arith, block_number-Step T st) in
    IsWellFormed-Step T st before (Reach-IsWellFormed T r before)
