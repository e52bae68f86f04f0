-- ===== src/Registry/FrontRunning/Ties.antt =====
-- Claims to a name that are made in the same block (pallets/vanity-registry/src/lib.rs).
use vantiy_name_registry.Base.{◌≤◌, ◌≡◌, ◌≢◌, refl, sym, ap, ◌∙◌, inl, inr, none, some, arith}
use vantiy_name_registry.Frame.Dispatch.{ok}
use vantiy_name_registry.Registry.{
  Config, LockPeriod, State, hash_of, commit, reveal, insert_commit, remove_commit, insert_owner,
}
use vantiy_name_registry.Registry.Counting.{commit_at}
use vantiy_name_registry.Registry.Commits
use vantiy_name_registry.Registry.Entries.{
  commit_of_insert_commit, commit_of_remove_commit, begin-le_of_eq, owner_at-insert_owner_self,
  owner_at-update_locked_fund, block_number-update_locked_fund,
}
use vantiy_name_registry.Registry.Calls.{
  owner_at, new_period, reveal_found, commit_lem, reveal_known,
}
use vantiy_name_registry.Registry.Transitions.{revealed_owner, after_commit, after_claim}
use vantiy_name_registry.Registry.Claims.{holder, IsSafe, Safe-discredited, Safe-reveal_found}

-- Nobody owns the name, and every pending commit to it is of this block.
pub record IsFresh (T : Config) (name : T.Name) (s : State T) : Type 0 where
  pub unowned : owner_at T name s ≡ none
  pub recent :
      (x : T.AccountId) (q : LockPeriod)
      → commit_at T x (hash_of T x name) s ≡ some q
      → s.block_number ≤ q.begin

module _ (T : Config) (name : T.Name) (bob : T.AccountId) (s : State T)
    (fresh : IsFresh T name s) where
  abbrev bobs : T.Hash
  bobs = hash_of T bob name

  abbrev inserted : State T
  inserted = insert_commit T bob bobs (new_period T s) s

  -- The state in which `bob` has committed, and the one in which he has revealed.
  abbrev committed_late : State T
  committed_late = after_commit T bob bobs s

  abbrev revealed_at_once : State T
  revealed_at_once = after_claim T bob name (new_period T s) committed_late

  pending_late : commit_at T bob bobs committed_late ≡ some (new_period T s)
  pending_late =
      Commits.commit_at-update_locked_fund T bob bob bobs inserted
      ∙ Commits.commit_at-insert_commit_self T bob bobs (new_period T s) s

  unowned_late : owner_at T name committed_late ≡ none
  unfolding insert_commit
  unowned_late = owner_at-update_locked_fund T bob name inserted ∙ fresh.unowned

  -- Where a commit comes from that is left when `bob` has revealed.
  commit_of_revealed :
      (x : T.AccountId) (q : LockPeriod)
      → commit_at T x (hash_of T x name) revealed_at_once ≡ some q
      → s.block_number ≤ q.begin
  unfolding insert_owner
  commit_of_revealed x q e =
      let left = commit_of_remove_commit T bob x bobs (hash_of T x name) q committed_late e in
      let made =
        sym (Commits.commit_at-update_locked_fund T bob x (hash_of T x name) inserted) ∙ left in
      elim (commit_of_insert_commit T bob x bobs (hash_of T x name) (new_period T s) q s made) [
        | inl (_, same) ↦ begin-le_of_eq s.block_number (new_period T s) q same (omega arith)
        | inr old ↦ fresh.recent x q old
      ]

  Safe-revealed_at_once : IsSafe T name bob s.block_number revealed_at_once
  unfolding insert_owner remove_commit insert_commit
  Safe-revealed_at_once = record {
    held = ap (holder T) (
        owner_at-insert_owner_self T name (revealed_owner T bob name (new_period T s))
          (remove_commit T bob bobs committed_late));
    oldest = commit_of_revealed;
    past = omega (arith, block_number-update_locked_fund T bob inserted);
  }

  -- The commit of another account is as it was.
  other_commit :
      (alice : T.AccountId)
      → bob ≢ alice
      → commit_at T alice (hash_of T alice name) revealed_at_once
        ≡ commit_at T alice (hash_of T alice name) s
  unfolding insert_owner
  other_commit alice other =
      let h = hash_of T alice name in
      Commits.commit_at-remove_commit_ne T bob alice bobs h committed_late
        (λ q. other (ap (λ z. z.0) q))
      ∙ Commits.commit_at-update_locked_fund T bob alice h inserted
      ∙ Commits.commit_at-insert_commit_ne T bob alice bobs h (new_period T s) s
          (λ q. other (ap (λ z. z.0) q))

  both_calls :
      (origin : T.Origin)
      → T.ensure_signed origin ≡ some bob
      → (reveal T origin name (commit T origin bobs s).1).1 ≡ revealed_at_once
  both_calls origin by =
      ap (λ r. (reveal T origin name r.1).1) (commit_lem T origin bob by bobs s)
      ∙ ap (λ r. r.1)
          (reveal_known T origin bob by name (new_period T s) committed_late pending_late)
      ∙ rw unowned_late refl

  late_reveal :
      (alice : T.AccountId) (p : LockPeriod)
      → commit_at T alice (hash_of T alice name) revealed_at_once ≡ some p
      → let t = reveal_found T alice name p revealed_at_once in
        (holder T (owner_at T name t) ≡ some (bob, s.block_number))
        × (commit_at T alice (hash_of T alice name) t ≡ none)
  late_reveal alice p e =
      let t = revealed_at_once in
      let h = hash_of T alice name in
      let lost =
        Safe-discredited T name bob s.block_number alice name p t refl e Safe-revealed_at_once in
      (
        (Safe-reveal_found T name bob s.block_number alice name p t e Safe-revealed_at_once).held,
        rw lost (
            Commits.commit_at-update_locked_fund T alice alice h (remove_commit T alice h t)
            ∙ Commits.commit_at-remove_commit_self T alice h t),
      )

-- Where nobody owns a name and every pending commit to it is of the current block, any other account that
-- commits to the name and reveals it at once, in front of the reveal of a commit that is already there,
-- gets the name. The reveal of that commit succeeds, and all that it does to the name is that the commit is
-- gone: the name stays with the other account.
pub same_block_race :
    (T : Config) (a_origin b_origin : T.Origin) (name : T.Name) (alice bob : T.AccountId)
    (p : LockPeriod) (s : State T)
    → IsFresh T name s
    → commit_at T alice (hash_of T alice name) s ≡ some p
    → T.ensure_signed a_origin ≡ some alice
    → T.ensure_signed b_origin ≡ some bob
    → bob ≢ alice
    → let t = (reveal T b_origin name (commit T b_origin (hash_of T bob name) s).1).1 in
      let r = reveal T a_origin name t in
      (r.0 ≡ ok tt)
      × (holder T (owner_at T name r.1) ≡ some (bob, s.block_number))
      × (commit_at T alice (hash_of T alice name) r.1 ≡ none)
same_block_race T a_origin b_origin name alice bob p s fresh made a_by b_by other =
    rw (both_calls T name bob s fresh b_origin b_by) (
      let t = revealed_at_once T name bob s fresh in
      let e = other_commit T name bob s fresh alice other ∙ made in
      let lost = late_reveal T name bob s fresh alice p e in
      rw (reveal_known T a_origin alice a_by name p t e) (refl, lost.0, lost.1))
