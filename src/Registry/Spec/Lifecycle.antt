-- ===== src/Registry/Spec/Lifecycle.antt =====
-- A name that is committed to, revealed and unregistered (pallets/vanity-registry/src/lib.rs).
use mathlib.Core.Logic.{if_pos, if_neg}
use vantiy_name_registry.Base.{
  suc, ◌≡◌, refl, sym, ap, ap₂, ◌∙◌, fun_ext, none, some, [], ◌∷◌, ◌++◌, arith,
}
use vantiy_name_registry.Frame.Dispatch.{ok}
use vantiy_name_registry.Registry.{
  Config, LockPeriod, OwnerOf, name_owned, name_freed, State, hash_of, Request, commit_call,
  reveal_call, unregister_call, dispatch, num_of_commits,
}
use vantiy_name_registry.Registry.Counting.{commit_at}
use vantiy_name_registry.Registry.Calls.{owner_at}
use vantiy_name_registry.Registry.Funds.{IsFunded, lock_at, lock_for}
use vantiy_name_registry.Registry.Spec.{
  View, view, put, settle, announce, later_end, add_commit, drop_commit, assign, claim_with,
  as_owner, spec_commit, spec_reveal, spec_unregister, spec_signed, spec_dispatch,
  commit_key_discrete, lock_key_discrete,
}
use vantiy_name_registry.Registry.Spec.Refines.{seen, dispatch-refines}

module _ {K V : Type 0} (dec : Discrete K) (k : K) where
  put_at : (j : K) (v : V) (f : K → V) → k ≡ j → put dec k v f j ≡ v
  put_at j v f q = if_pos (dec k j) q v (f j)

  put_off : (j : K) (v : V) (f : K → V) → ¬ (k ≡ j) → put dec k v f j ≡ f j
  put_off j v f n = if_neg (dec k j) n v (f j)

  put_self : (v : V) (f : K → V) → put dec k v f k ≡ v
  put_self v f = put_at k v f refl

  -- The later write wins.
  put_twice : (v w : V) (f : K → V) → put dec k v (put dec k w f) ≡ put dec k v f
  put_twice v w f = fun_ext (λ j. elim (dec k j) [
    | yes q ↦ put_at j v (put dec k w f) q ∙ sym (put_at j v f q)
    | no n ↦ put_off j v (put dec k w f) n ∙ put_off j w f n ∙ sym (put_off j v f n)
  ])

  -- A write of what is there changes nothing.
  put_same : (v : V) (f : K → V) → f k ≡ v → put dec k v f ≡ f
  put_same v f e =
      fun_ext
        (λ j. elim (dec k j) [ yes q ↦ put_at j v f q ∙ sym e ∙ ap f q | no n ↦ put_off j v f n ])

  put_back : (v w : V) (f : K → V) → f k ≡ v → put dec k v (put dec k w f) ≡ f
  put_back v w f e = put_twice v w f ∙ put_same v f e

module _ (T : Config) (who : T.AccountId) (name : T.Name) where
  abbrev hash : T.Hash
  hash = hash_of T who name

  abbrev period : View T → LockPeriod
  period v = record { begin = v.block_number; end = later_end T v }

  abbrev owner : View T → OwnerOf T
  owner v = record { id = who; commit = hash; lock_period = period v }

  abbrev committed : View T → View T
  committed v = settle T who (add_commit T who hash (period v) v)

  abbrev revealed : View T → View T
  revealed v =
      announce T (name_owned name who)
        (assign T name (some (owner v)) (drop_commit T who hash (committed v)))

  abbrev unregistered : View T → View T
  unregistered v = announce T (name_freed name) (settle T who (assign T name none (revealed v)))

  spec_reveal-committed :
      (v : View T)
      → v.owners name ≡ none
      → spec_reveal T who name (committed v) ≡ (ok tt, revealed v)
  unfolding spec_reveal
  spec_reveal-committed v free =
      ap (λ o. claim_with T who name o (committed v))
        (put_self (commit_key_discrete T) (who, hash) (some (period v)) v.commits)
      ∙ rw free refl

  spec_unregister-revealed :
      (v : View T) → spec_unregister T who name (revealed v) ≡ (ok tt, unregistered v)
  unfolding spec_unregister
  spec_unregister-revealed v =
      ap
        (λ o.
          as_owner T who o
            (λ _. announce T (name_freed name) (settle T who (assign T name none (revealed v))))
            (revealed v))
        (put_self T.name_discrete name (some (owner v)) v.owners)
      ∙ if_pos (T.account_discrete who who) refl _ _

  -- What is left: two events.
  unregistered-eq :
      (v : View T)
      → v.owners name ≡ none
      → v.commits (who, hash) ≡ none
      → v.locks (T.module_id, who) ≡ lock_for T (v.count who)
      → unregistered v
        ≡ record v { events = (v.events ++ name_owned name who ∷ []) ++ name_freed name ∷ [] }
  unregistered-eq v free fresh settled = λ i. record {
    block_number = v.block_number;
    commits = put_back (commit_key_discrete T) (who, hash) none (some (period v)) v.commits fresh i;
    count = counts i;
    owners = put_back T.name_discrete name none (some (owner v)) v.owners free i;
    locks = locked i;
    events = (v.events ++ name_owned name who ∷ []) ++ name_freed name ∷ [];
  }
    where
      counts : (unregistered v).count ≡ v.count
      counts = rw fresh (
          ap
            (λ n.
              put T.account_discrete who n (put T.account_discrete who (suc (v.count who)) v.count))
            (omega (arith, put_self T.account_discrete who (suc (v.count who)) v.count))
          ∙ put_back T.account_discrete who (v.count who) (suc (v.count who)) v.count refl)

      locked : (unregistered v).locks ≡ v.locks
      locked =
          put_back (lock_key_discrete T) (T.module_id, who)
            (lock_for T ((unregistered v).count who)) (lock_for T ((committed v).count who)) v.locks
            (settled ∙ ap (λ c. lock_for T (c who)) (sym counts))

module _ (T : Config) (v : IsFunded T) (origin : T.Origin) (who : T.AccountId)
    (by : T.ensure_signed origin ≡ some who) where
  seen-signed :
      (q : Request T) (s : State T) (w : View T)
      → view T s ≡ w
      → seen T (dispatch T origin q s) ≡ spec_signed T who q w
  unfolding spec_dispatch
  seen-signed q s w e = dispatch-refines T origin q s v ∙ ap₂ (λ x z. spec_dispatch T x q z) by e

  seen_commit :
      (name : T.Name) (s : State T)
      → seen T (dispatch T origin (commit_call (hash_of T who name)) s)
        ≡ (ok tt, committed T who name (view T s))
  unfolding spec_signed spec_commit
  seen_commit name s = seen-signed (commit_call (hash_of T who name)) s (view T s) refl

  seen_reveal :
      (name : T.Name) (s : State T) (w : View T)
      → view T s ≡ committed T who name w
      → w.owners name ≡ none
      → seen T (dispatch T origin (reveal_call name) s) ≡ (ok tt, revealed T who name w)
  unfolding spec_signed
  seen_reveal name s w e free =
      seen-signed (reveal_call name) s (committed T who name w) e
      ∙ spec_reveal-committed T who name w free

  seen_unregister :
      (name : T.Name) (s : State T) (w : View T)
      → view T s ≡ revealed T who name w
      → seen T (dispatch T origin (unregister_call name) s) ≡ (ok tt, unregistered T who name w)
  unfolding spec_signed
  seen_unregister name s w e =
      seen-signed (unregister_call name) s (revealed T who name w) e
      ∙ spec_unregister-revealed T who name w

-- An account commits to a name that has no owner, reveals it and unregisters it. All three calls
-- succeed, and then the maps, the numbers of commits, the block number and all locks are what they were
-- before, with two events added, if it had no commit to the name before, its lock was that for its
-- commits, and the fund to lock is not zero.
pub register-unregister :
    (T : Config) (origin : T.Origin) (who : T.AccountId) (name : T.Name) (s : State T)
    → IsFunded T
    → T.ensure_signed origin ≡ some who
    → owner_at T name s ≡ none
    → commit_at T who (hash_of T who name) s ≡ none
    → lock_at T who s ≡ lock_for T (num_of_commits T who s)
    → let c = dispatch T origin (commit_call (hash_of T who name)) s in
      let r = dispatch T origin (reveal_call name) c.1 in
      let u = dispatch T origin (unregister_call name) r.1 in
      (c.0 ≡ ok tt)
      × (r.0 ≡ ok tt)
      × (u.0 ≡ ok tt)
      × (view T u.1 ≡ record (view T s) {
        events = (s.events ++ name_owned name who ∷ []) ++ name_freed name ∷ [];
      })
unfolding view
register-unregister T origin who name s v by free fresh settled =
    let c = dispatch T origin (commit_call (hash_of T who name)) s in
    let r = dispatch T origin (reveal_call name) c.1 in
    let ec = seen_commit T v origin who by name s in
    let er = seen_reveal T v origin who by name c.1 (view T s) (ap (λ x. x.1) ec) free in
    let eu = seen_unregister T v origin who by name r.1 (view T s) (ap (λ x. x.1) er) in
    (
      ap (λ x. x.0) ec,
      ap (λ x. x.0) er,
      ap (λ x. x.0) eu,
      ap (λ x. x.1) eu ∙ unregistered-eq T who name (view T s) free fresh settled,
    )
