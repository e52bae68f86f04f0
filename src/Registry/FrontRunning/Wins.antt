-- ===== src/Registry/FrontRunning/Wins.antt =====
-- The reveal of the oldest commit among the calls of others (pallets/vanity-registry/src/lib.rs).
use vantiy_name_registry.Base.{
  ℕ, ◌≤◌, ◌<◌, ◌≡◌, refl, sym, ap, subst, ◌∙◌, ◌≢◌, false, none, some, List, [], ◌∷◌, arith,
}
use vantiy_name_registry.Registry.{
  Config, LockPeriod, State, hash_of, Request, commit_call, reveal_call, renew_call,
  unregister_call, dispatch, update_locked_fund, insert_commit, remove_commit, insert_owner,
  remove_owner, deposit_event, is_discredited, reveal, name_owned, name_freed,
}
use vantiy_name_registry.Registry.Counting.{commit_at}
use vantiy_name_registry.Registry.Commits
use vantiy_name_registry.Registry.Entries.{commit_of_remove_commit, owner_at-insert_owner_self}
use vantiy_name_registry.Registry.Calls.{owner_at, new_period, reveal_known}
use vantiy_name_registry.Registry.Transitions.{
  renewed_owner, Transition, Transition-reveal_found, commit_made, name_renewed, name_given_up,
  dispatch_preserves,
}
use vantiy_name_registry.Registry.Claims.{is_discredited_of_older, holder, IsSafe}
use vantiy_name_registry.Registry.Claims.Dispatch.{IsSafe-dispatch}
use vantiy_name_registry.Registry.FrontRunning.{
  IsFirst, First-of_eq, First-insert_commit, First-insert_owner, First-remove_owner,
  First-reveal_found, First-update_locked_fund,
}

First-Transition :
    (T : Config) (x : T.AccountId) (q : Request T) (s t : State T) (name : T.Name)
    (who : T.AccountId) (p : LockPeriod)
    → x ≢ who
    → Transition T x s t q
    → IsFirst T name who p s
    → IsFirst T name who p t
First-Transition T x (commit_call hash) s t name who p other (commit_made e) h =
    subst (IsFirst T name who p) (sym e) (
      First-update_locked_fund T name who x other p x (insert_commit T x hash (new_period T s) s)
        (First-insert_commit T name who x other p hash s h))
First-Transition T x (reveal_call m) s t name who p other step h =
    let (q, c, e) = Transition-reveal_found T x m s t step in
    subst (IsFirst T name who p) e (First-reveal_found T name who x other p m q s c h)
First-Transition T x (renew_call m) s t name who p other (name_renewed {o} c d e) h =
    subst (IsFirst T name who p) (sym e) (
      First-insert_owner T name who x other p m (renewed_owner T o s) s
        (λ k. h.owner_younger o (subst (λ n. owner_at T n s ≡ some o) k c)) h)
First-Transition T x (unregister_call m) s t name who p other (name_given_up c d e) h =
    let gone = remove_owner T m s in
    subst (IsFirst T name who p) (sym e) (
      First-of_eq T name who x other p (update_locked_fund T x gone)
        (deposit_event T (name_freed m) (update_locked_fund T x gone)) refl refl refl
        (First-update_locked_fund T name who x other p x gone
          (First-remove_owner T name who x other p m s h)))

-- No call of anybody else takes the first place of a pending commit of an earlier block.
pub IsFirst-dispatch :
    (T : Config) (origin : T.Origin) (q : Request T) (name : T.Name) (who : T.AccountId)
    (p : LockPeriod) (s : State T)
    → T.ensure_signed origin ≢ some who
    → IsFirst T name who p s
    → IsFirst T name who p (dispatch T origin q s).1
IsFirst-dispatch T origin q name who p s other h =
    dispatch_preserves T origin q s (IsFirst T name who p) h
      (λ x t by step. First-Transition T x q s t name who p (λ k. other (by ∙ ap some k)) step h)

-- The state behind a reveal that wins.
IsSafe-won :
    (T : Config) (name : T.Name) (who : T.AccountId) (p : LockPeriod) (s : State T)
    → IsFirst T name who p s
    → IsSafe T name who p.begin (
        deposit_event T (name_owned name who) (
          insert_owner T name
            (record { id = who; commit = hash_of T who name; lock_period = p })
            (remove_commit T who (hash_of T who name) s)))
unfolding insert_owner remove_commit
IsSafe-won T name who p s h = record {
  held = ap (holder T) (
      owner_at-insert_owner_self T name
        (record { id = who; commit = hash_of T who name; lock_period = p })
        (remove_commit T who (hash_of T who name) s));
  oldest = λ x q e. elim (T.account_discrete x who) [
    | yes k ↦ cc (gone x k, e)
    | no n ↦ lt_le _ _ (
        h.younger x q n
          (commit_of_remove_commit T who x (hash_of T who name) (hash_of T x name) q s e))
  ];
  past = lt_le _ _ h.past;
}
  where
    lt_le : (a b : ℕ) → a < b → a ≤ b
    lt_le a b l = omega arith

    gone :
        (x : T.AccountId)
        → x ≡ who
        → commit_at T x (hash_of T x name) (remove_commit T who (hash_of T who name) s) ≡ none
    gone x k =
        subst
          (λ y.
            commit_at T y (hash_of T y name) (remove_commit T who (hash_of T who name) s) ≡ none)
          (sym k) (Commits.commit_at-remove_commit_self T who (hash_of T who name) s)

-- The first commit is not discredited.
pub First-wins :
    (T : Config) (name : T.Name) (who : T.AccountId) (p : LockPeriod) (s : State T)
    → IsFirst T name who p s
    → is_discredited T (owner_at T name s) p ≡ false
First-wins T name who p s h = is_discredited_of_older T (owner_at T name s) p h.owner_younger

-- After a reveal of the first commit by its account the name is safe with that account: it holds the
-- name since the block of the commit, and no pending claim is older.
pub reveal-IsSafe :
    (T : Config) (origin : T.Origin) (name : T.Name) (who : T.AccountId) (p : LockPeriod)
    (s : State T)
    → T.ensure_signed origin ≡ some who
    → IsFirst T name who p s
    → IsSafe T name who p.begin (reveal T origin name s).1
reveal-IsSafe T origin name who p s by h =
    subst (IsSafe T name who p.begin)
      (sym (ap (λ r. r.1) (reveal_known T origin who by name p s h.pending)))
      (rw (First-wins T name who p s h) (IsSafe-won T name who p s h))

-- The calls of a block, one after the other, each by its origin.
unfoldable pub run_calls : (T : Config) → List (T.Origin × Request T) → State T → State T
run_calls T [] s = s
run_calls T ((origin, q) ∷ qs) s = run_calls T qs (dispatch T origin q s).1

-- None of the calls is signed by `who`.
abbrev pub AreOthers : (T : Config) → T.AccountId → List (T.Origin × Request T) → Type 0
AreOthers T who [] = Unit
AreOthers T who ((origin, q) ∷ qs) = (T.ensure_signed origin ≢ some who) × AreOthers T who qs

-- None of the calls is a request of `who` to give up the name.
abbrev pub NoneGivesUp : (T : Config) → T.AccountId → T.Name → List (T.Origin × Request T) → Type 0
NoneGivesUp T who name [] = Unit
NoneGivesUp T who name ((origin, q) ∷ qs) =
    (¬ ((T.ensure_signed origin ≡ some who) × (q ≡ unregister_call name)))
    × NoneGivesUp T who name qs

IsFirst-run_calls :
    (T : Config) (qs : List (T.Origin × Request T)) (name : T.Name) (who : T.AccountId)
    (p : LockPeriod) (s : State T)
    → AreOthers T who qs
    → IsFirst T name who p s
    → IsFirst T name who p (run_calls T qs s)
unfolding run_calls
IsFirst-run_calls T [] name who p s o h = h
IsFirst-run_calls T ((origin, q) ∷ qs) name who p s o h =
    IsFirst-run_calls T qs name who p (dispatch T origin q s).1 o.1
      (IsFirst-dispatch T origin q name who p s o.0 h)

IsSafe-run_calls :
    (T : Config) (qs : List (T.Origin × Request T)) (name : T.Name) (who : T.AccountId) (b : ℕ)
    (s : State T)
    → NoneGivesUp T who name qs
    → IsSafe T name who b s
    → IsSafe T name who b (run_calls T qs s)
unfolding run_calls
IsSafe-run_calls T [] name who b s k h = h
IsSafe-run_calls T ((origin, q) ∷ qs) name who b s k h =
    IsSafe-run_calls T qs name who b (dispatch T origin q s).1 k.1
      (IsSafe-dispatch T origin q name who b s k.0 h)

-- An account has a pending commit to a name, of an earlier block, and every other claim to the name,
-- pending or revealed, is younger. It reveals the name behind any calls of others, such as a reveal that runs
-- in front: the name is its own, since the block of that commit, and stays its own under any further calls
-- in which it does not give it up.
pub oldest_commit_wins :
    (T : Config) (before after : List (T.Origin × Request T)) (origin : T.Origin) (name : T.Name)
    (who : T.AccountId) (p : LockPeriod) (s : State T)
    → IsFirst T name who p s
    → AreOthers T who before
    → T.ensure_signed origin ≡ some who
    → NoneGivesUp T who name after
    → holder T (owner_at T name (run_calls T after (reveal T origin name (run_calls T before s)).1))
      ≡ some (who, p.begin)
oldest_commit_wins T before after origin name who p s h others by kept =
    (IsSafe-run_calls T after name who p.begin _ kept (
      reveal-IsSafe T origin name who p (run_calls T before s) by
        (IsFirst-run_calls T before name who p s others h))).held
