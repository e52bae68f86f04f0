-- ===== src/Registry/Chain/Protocol.antt =====
-- Commit, wait for the end of the block, reveal: how a name is meant to be registered
-- (pallets/vanity-registry/src/lib.rs).
use vantiy_name_registry.Base.{
  ◌≤◌, [], ◌<◌, ◌≡◌, sym, ap, subst, ◌∙◌, ◌≢◌, inl, inr, none, some, List, arith,
}
use vantiy_name_registry.Registry.{
  Config, LockPeriod, State, hash_of, Request, commit, reveal, insert_commit, update_locked_fund,
}
use vantiy_name_registry.Registry.Counting.{commit_at}
use vantiy_name_registry.Registry.Commits
use vantiy_name_registry.Registry.Funds.{update_locked_fund_frame}
use vantiy_name_registry.Registry.Entries.{commit_of_insert_commit}
use vantiy_name_registry.Registry.Calls.{owner_at, new_end, new_period, commit_lem}
use vantiy_name_registry.Registry.Claims.{holder}
use vantiy_name_registry.Registry.FrontRunning.{IsFirst}
use vantiy_name_registry.Registry.FrontRunning.Wins.{run_calls, NoneGivesUp, oldest_commit_wins}
use vantiy_name_registry.Registry.Chain.Waiting.{Move, run_moves, AreOtherMoves, IsFirst-run_moves}
use vantiy_name_registry.Registry.Expiry.Commits.{unexpired}
use vantiy_name_registry.Registry.Expiry.Finalize.{commit_at-on_finalize}
use vantiy_name_registry.Registry.Chain.{next_block}
use vantiy_name_registry.Registry.Chain.Periods.Reached.{commit_of_next_block, owner_of_next_block}

-- Nobody owns the name, and nobody but `who` may have a commit to it.
pub record IsFree (T : Config) (name : T.Name) (who : T.AccountId) (s : State T) : Type 0 where
  pub unowned : owner_at T name s ≡ none
  pub unclaimed : (x : T.AccountId) → x ≢ who → commit_at T x (hash_of T x name) s ≡ none

module _ (T : Config) (name : T.Name) (who : T.AccountId) (s : State T) where
  abbrev pub committed : State T
  committed = update_locked_fund T who (insert_commit T who (hash_of T who name) (new_period T s) s)

  pub commit_at-committed : commit_at T who (hash_of T who name) committed ≡ some (new_period T s)
  commit_at-committed =
      Commits.commit_at-update_locked_fund T who who (hash_of T who name)
        (insert_commit T who (hash_of T who name) (new_period T s) s)
      ∙ Commits.commit_at-insert_commit_self T who (hash_of T who name) (new_period T s) s

  pub owner_at-committed : owner_at T name committed ≡ owner_at T name s
  unfolding insert_commit
  owner_at-committed =
      rw (
        update_locked_fund_frame T who
          (insert_commit T who (hash_of T who name) (new_period T s) s))

  pub block_number-committed : committed.block_number ≡ s.block_number
  unfolding insert_commit
  block_number-committed =
      rw (
        update_locked_fund_frame T who
          (insert_commit T who (hash_of T who name) (new_period T s) s))

  pub other-committed :
      (x : T.AccountId) (q : LockPeriod)
      → x ≢ who
      → commit_at T x (hash_of T x name) committed ≡ some q
      → commit_at T x (hash_of T x name) s ≡ some q
  other-committed x q n e =
      let t = insert_commit T who (hash_of T who name) (new_period T s) s in
      elim (commit_of_insert_commit T who x (hash_of T who name) (hash_of T x name) (new_period T s)
        q s (sym (Commits.commit_at-update_locked_fund T who x (hash_of T x name) t) ∙ e)) [
          | inl (k, _) ↦ absurd (n (sym (ap (λ z. z.0) k)))
          | inr old ↦ old
        ]

  unexpired-new_period :
      s.block_number < new_end T s
      → unexpired committed.block_number (some (new_period T s)) ≡ some (new_period T s)
  unexpired-new_period late = rw block_number-committed (ground arith)

  pub IsFirst-committed :
      s.block_number < new_end T s
      → IsFree T name who s
      → IsFirst T name who (new_period T s) (next_block T committed)
  unfolding next_block
  IsFirst-committed late free = record {
    pending =
        commit_at-on_finalize T committed.block_number committed who (hash_of T who name)
        ∙ ap (unexpired committed.block_number) commit_at-committed
        ∙ unexpired-new_period late;
    younger = λ x q n e. cc (
      other-committed x q n (commit_of_next_block T committed x (hash_of T x name) q e).0,
      free.unclaimed x n,
    );
    owner_younger =
        λ o e. cc ((owner_of_next_block T committed name o e).0, owner_at-committed, free.unowned);
    past = omega (arith, block_number-committed);
  }

-- The commit of `who` is the first claim to the name while others call and blocks end.
pub IsFirst-waiting :
    (T : Config) (waiting : List (Move T)) (origin : T.Origin) (name : T.Name) (who : T.AccountId)
    (s : State T)
    → IsFree T name who s
    → s.block_number < new_end T s
    → T.ensure_signed origin ≡ some who
    → AreOtherMoves T who waiting
    → let t = run_moves T waiting (next_block T (commit T origin (hash_of T who name) s).1) in
      t.block_number ≤ new_end T s → IsFirst T name who (new_period T s) t
IsFirst-waiting T waiting origin name who s free late by others in_time =
    IsFirst-run_moves T waiting name who (new_period T s)
      (next_block T (commit T origin (hash_of T who name) s).1) others in_time
      (subst (λ r. IsFirst T name who (new_period T s) (next_block T r.1))
        (sym (commit_lem T origin who by (hash_of T who name) s))
        (IsFirst-committed T name who s late free))

-- Someone commits to a name that is free, in a block whose register period does not wrap, and reveals
-- it in a later block up to the end of that period, behind any calls of others in any of the blocks.
-- Then they hold the name since the block of the commit, and keep it under any further calls of the
-- block in which they do not give it up.
pub commit-reveal :
    (T : Config) (waiting : List (Move T)) (after : List (T.Origin × Request T)) (origin : T.Origin)
    (name : T.Name) (who : T.AccountId) (s : State T)
    → IsFree T name who s
    → s.block_number < new_end T s
    → T.ensure_signed origin ≡ some who
    → AreOtherMoves T who waiting
    → (run_moves T waiting (next_block T (commit T origin (hash_of T who name) s).1)).block_number
      ≤ new_end T s
    → NoneGivesUp T who name after
    → let t = run_moves T waiting (next_block T (commit T origin (hash_of T who name) s).1) in
      holder T (owner_at T name (run_calls T after (reveal T origin name t).1))
      ≡ some (who, s.block_number)
unfolding run_calls
commit-reveal T waiting after origin name who s free late by others in_time kept =
    let t = run_moves T waiting (next_block T (commit T origin (hash_of T who name) s).1) in
    oldest_commit_wins T [] after origin name who (new_period T s) t
      (IsFirst-waiting T waiting origin name who s free late by others in_time) tt by kept
