-- ===== src/Registry/FrontRunning.antt =====
-- The order of claims to a name under `commit` and `reveal` of pallets/vanity-registry/src/lib.rs.
pub mod Wins
pub mod Ties
use vantiy_name_registry.Base.{
  ℕ, ◌≤◌, ◌<◌, ◌≡◌, refl, sym, ap, subst, ◌∙◌, ◌≢◌, inl, inr, Option, none, some, arith, leb,
  if◌then◌else◌, Option-cases, Bool-cases,
}
use vantiy_name_registry.Registry.{
  Config, LockPeriod, Owner, OwnerOf, State, hash_of, Request, commit_call, reveal_call, renew_call,
  unregister_call, dispatch, update_locked_fund, insert_commit, remove_commit, insert_owner,
  remove_owner, deposit_event, is_discredited, commit, reveal, renew, unregister,
  reveal_discredited, name_owned, name_freed,
}
use vantiy_name_registry.Registry.Counting.{commit_at}
use vantiy_name_registry.Registry.Funds.{update_locked_fund_frame}
use vantiy_name_registry.Registry.Commits
use vantiy_name_registry.Registry.Entries.{
  commit_of_insert_commit, commit_of_remove_commit, owner_of_insert_owner, owner_of_remove_owner,
}
use vantiy_name_registry.Registry.Calls.{
  owner_at, new_end, new_period, reveal_found, commit_lem, reveal_unknown, reveal_known,
  renew_owned, renew_not_owned, renew_not_found, unregister_owned, unregister_not_owned,
  unregister_not_found,
}
use vantiy_name_registry.Registry.Outcomes.{dispatch_unsigned}

-- The commit of `who` to the name, of period `p`, is pending, it is of an earlier block, and every
-- other claim to the name, pending or revealed, is younger.
pub record IsFirst (T : Config) (name : T.Name) (who : T.AccountId) (p : LockPeriod) (s : State T)
    : Type 0 where
  pub pending : commit_at T who (hash_of T who name) s ≡ some p
  pub younger :
      (x : T.AccountId) (q : LockPeriod)
      → x ≢ who
      → commit_at T x (hash_of T x name) s ≡ some q
      → p.begin < q.begin
  pub owner_younger : (o : OwnerOf T) → owner_at T name s ≡ some o → p.begin < o.lock_period.begin
  pub past : p.begin < s.block_number

begin-lt_of_eq : (b : ℕ) (p q : LockPeriod) → p ≡ q → b < p.begin → b < q.begin
begin-lt_of_eq b p q e h = ground arith

module _ (T : Config) (name : T.Name) (who x : T.AccountId) (other : x ≢ who) (p : LockPeriod) where
  abbrev pub First : State T → Type 0
  First = IsFirst T name who p

  pub First-of_eq :
      (s t : State T)
      → t.owners ≡ s.owners
      → t.lock_periods ≡ s.lock_periods
      → t.block_number ≡ s.block_number
      → First s
      → First t
  First-of_eq s t eo ec eb h = record {
    pending = ap (T.lock_periods.get who (hash_of T who name)) ec ∙ h.pending;
    younger =
        λ y q n e. h.younger y q n (sym (ap (T.lock_periods.get y (hash_of T y name)) ec) ∙ e);
    owner_younger = λ o e. h.owner_younger o (sym (ap (T.owners.get name) eo) ∙ e);
    past = subst (λ n. p.begin < n) (sym eb) h.past;
  }

  pub First-update_locked_fund :
      (id : T.AccountId) (s : State T) → First s → First (update_locked_fund T id s)
  First-update_locked_fund id s h =
      let e = update_locked_fund_frame T id s in
      First-of_eq s (update_locked_fund T id s) (ap (λ (z : State T). z.owners) e)
        (ap (λ (z : State T). z.lock_periods) e) (ap (λ (z : State T). z.block_number) e) h

  -- A commit of somebody else in this block is younger.
  pub First-insert_commit :
      (hash : T.Hash) (s : State T) → First s → First (insert_commit T x hash (new_period T s) s)
  unfolding insert_commit
  First-insert_commit hash s h = record {
    pending =
        Commits.commit_at-insert_commit_ne T x who hash (hash_of T who name) (new_period T s) s
          (λ k. other (ap (λ z. z.0) k))
        ∙ h.pending;
    younger = λ y q n e.
        elim (commit_of_insert_commit T x y hash (hash_of T y name) (new_period T s) q s e) [
          | inl (_, same) ↦ begin-lt_of_eq p.begin (new_period T s) q same h.past
          | inr old ↦ h.younger y q n old
        ];
    owner_younger = h.owner_younger;
    past = h.past;
  }

  pub First-remove_commit :
      (hash : T.Hash) (s : State T) → First s → First (remove_commit T x hash s)
  unfolding remove_commit
  First-remove_commit hash s h = record {
    pending =
        Commits.commit_at-remove_commit_ne T x who hash (hash_of T who name) s
          (λ k. other (ap (λ z. z.0) k))
        ∙ h.pending;
    younger =
        λ y q n e. h.younger y q n (commit_of_remove_commit T x y hash (hash_of T y name) q s e);
    owner_younger = h.owner_younger;
    past = h.past;
  }

  owner_lt_of_eq :
      (o o' : OwnerOf T) → o ≡ o' → p.begin < o.lock_period.begin → p.begin < o'.lock_period.begin
  owner_lt_of_eq o o' e h = ground arith

  pub First-insert_owner :
      (m : T.Name) (o : OwnerOf T) (s : State T)
      → (m ≡ name → p.begin < o.lock_period.begin)
      → First s
      → First (insert_owner T m o s)
  unfolding insert_owner
  First-insert_owner m o s late h = record {
    pending = h.pending;
    younger = h.younger;
    owner_younger = λ o' e. elim (owner_of_insert_owner T m name o o' s e) [
      | inl (k, same) ↦ owner_lt_of_eq o o' same (late k)
      | inr old ↦ h.owner_younger o' old
    ];
    past = h.past;
  }

  pub First-remove_owner : (m : T.Name) (s : State T) → First s → First (remove_owner T m s)
  unfolding remove_owner
  First-remove_owner m s h = record {
    pending = h.pending;
    younger = h.younger;
    owner_younger = λ o e. h.owner_younger o (owner_of_remove_owner T m name o s e);
    past = h.past;
  }

  pub First-reveal_found :
      (m : T.Name) (q : LockPeriod) (s : State T)
      → commit_at T x (hash_of T x m) s ≡ some q
      → First s
      → First (reveal_found T x m q s)
  First-reveal_found m q s e h =
      let hash = hash_of T x m in
      let taken = remove_commit T x hash s in
      let owner : OwnerOf T = record { id = x; commit = hash; lock_period = q } in
      let kept = First-remove_commit hash s h in
      elim (Bool-cases (is_discredited T (owner_at T m s) q)) [
        | inl d ↦ rw d (
            First-of_eq (update_locked_fund T x taken)
              (deposit_event T (reveal_discredited m x) (update_locked_fund T x taken)) refl refl
              refl (First-update_locked_fund x taken kept))
        | inr d ↦ rw d (
            First-of_eq (insert_owner T m owner taken)
              (deposit_event T (name_owned m x) (insert_owner T m owner taken)) refl refl refl
              (First-insert_owner m owner taken
                (λ k. h.younger x q other (sym (ap (λ n. commit_at T x (hash_of T x n) s) k) ∙ e))
                kept))
      ]
