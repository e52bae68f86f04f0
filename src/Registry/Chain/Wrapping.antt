-- ===== src/Registry/Chain/Wrapping.antt =====
-- `now + RegisterPeriod` of pallets/vanity-registry/src/lib.rs where the sum wraps.
use vantiy_name_registry.Base.{
  ℕ, ◌+◌, ◌^◌, ◌≤◌, ◌<◌, ◌≡◌, ◌≢◌, refl, sym, ap, ◌∙◌, inl, inr, Option, none, some, arith,
  Option-cases,
}
use vantiy_name_registry.Base.Words.{wrapping_add-wraps}
use vantiy_name_registry.Registry.{
  Config, OwnerOf, State, insert_commit, insert_owner, commit, renew,
}
use vantiy_name_registry.Registry.Counting.{commit_at}
use vantiy_name_registry.Registry.Commits
use vantiy_name_registry.Registry.Entries.{
  owner_at-insert_owner_self, block_number-update_locked_fund,
}
use vantiy_name_registry.Registry.Calls.{
  owner_at, new_end, new_period, commit_lem, renew_owned, renew_not_owned, renew_not_found,
}
use vantiy_name_registry.Registry.Transitions.{after_commit, after_renewal, renewed_owner}
use vantiy_name_registry.Registry.Expiry.Commits.{unexpired}
use vantiy_name_registry.Registry.Expiry.Names.{still_owned}
use vantiy_name_registry.Registry.Expiry.Finalize.{commit_at-on_finalize}
use vantiy_name_registry.Registry.Chain.Replay.{owner_id}
use vantiy_name_registry.Registry.Chain.{next_block}
use vantiy_name_registry.Registry.Chain.Keeping.{owner_at-next_block}

-- A block whose number fits, at most a register period before the numbers end.
pub record IsLate (T : Config) (s : State T) : Type 0 where
  pub within : s.block_number < 2 ^ T.block_number_bits
  pub period_within : T.register_period < 2 ^ T.block_number_bits
  pub wraps : 2 ^ T.block_number_bits ≤ s.block_number + T.register_period

module _ (T : Config) (s : State T) (late : IsLate T s) where
  new_end-le : new_end T s ≤ s.block_number
  new_end-le = omega (
    arith,
    late.period_within,
    wrapping_add-wraps T.block_number_bits s.block_number T.register_period late.within
        late.period_within late.wraps,
  )

  unexpired-wrapped :
      (now : ℕ) → now ≡ s.block_number → unexpired now (some (new_period T s)) ≡ none
  unexpired-wrapped now e = ground (arith, new_end-le)

  still_owned-wrapped :
      (now : ℕ) (o : OwnerOf T)
      → now ≡ s.block_number
      → still_owned T now (some (renewed_owner T o s)) ≡ none
  still_owned-wrapped now o e = ground (arith, new_end-le)

  commit_expires :
      (who : T.AccountId) (hash : T.Hash)
      → commit_at T who hash (next_block T (after_commit T who hash s)) ≡ none
  unfolding next_block insert_commit
  commit_expires who hash =
      let made = insert_commit T who hash (new_period T s) s in
      let t = after_commit T who hash s in
      commit_at-on_finalize T t.block_number t who hash
      ∙ ap (unexpired t.block_number) (
          Commits.commit_at-update_locked_fund T who who hash made
          ∙ Commits.commit_at-insert_commit_self T who hash (new_period T s) s)
      ∙ unexpired-wrapped t.block_number (block_number-update_locked_fund T who made)

  renewal_expires :
      (name : T.Name) (o : OwnerOf T)
      → owner_at T name (next_block T (after_renewal T name o s)) ≡ none
  unfolding insert_owner
  renewal_expires name o =
      let t = after_renewal T name o s in
      owner_at-next_block T name t
      ∙ ap (still_owned T t.block_number)
          (owner_at-insert_owner_self T name (renewed_owner T o s) s)
      ∙ still_owned-wrapped t.block_number o refl

module _ (T : Config) (s : State T) (origin : T.Origin) (who : T.AccountId)
    (by : T.ensure_signed origin ≡ some who) where
  -- The account of the owner of the name in the block behind a state.
  abbrev next_owner : T.Name → State T → Option T.AccountId
  next_owner name t = owner_id T (owner_at T name (next_block T t))

  others_stay :
      (now : ℕ) (m : Option (OwnerOf T))
      → owner_id T m ≢ some who
      → owner_id T (still_owned T now m) ≢ some who
  others_stay now none n e = n e
  others_stay now (some o) n e = ground arith

  -- Nothing is renewed for an account that is not the owner.
  refused_renewal :
      (name : T.Name) → owner_id T (owner_at T name s) ≢ some who → next_owner name s ≢ some who
  refused_renewal name n e =
      others_stay s.block_number (owner_at T name s) n
        (sym (ap (owner_id T) (owner_at-next_block T name s)) ∙ e)

  renewal_lost : (name : T.Name) → IsLate T s → next_owner name (renew T origin name s).1 ≢ some who
  renewal_lost name late e = elim (Option-cases (owner_at T name s)) [
    | inl m ↦
        refused_renewal name (λ k. cc (m, k))
          (sym (ap (λ r. next_owner name r.1) (renew_not_found T origin who by name s m)) ∙ e)
    | inr (o, m) ↦ elim (T.account_discrete o.id who) [
      | no n ↦
          refused_renewal name (λ k. n (cc (m, k)))
            (sym (ap (λ r. next_owner name r.1) (renew_not_owned T origin who by name o s m n)) ∙ e)
      | yes q ↦ cc (
        ap (λ r. next_owner name r.1) (renew_owned T origin who by name o s m q),
        renewal_expires T s late name o,
        e,
      )
    ]
  ]

-- In a block that is at most a register period before the end of the block numbers, the end of a new
-- period wraps. Then the commit of any account is gone at the end of the block, before it can be revealed
-- in a later one; and whoever renews a name does not own it in the next block, even if it did before and
-- however long its period was.
pub wrapped_periods_expire :
    (T : Config) (s : State T) (origin : T.Origin) (who : T.AccountId) (hash : T.Hash)
    (name : T.Name)
    → IsLate T s
    → T.ensure_signed origin ≡ some who
    → (commit_at T who hash (next_block T (commit T origin hash s).1) ≡ none)
      × (owner_id T (owner_at T name (next_block T (renew T origin name s).1)) ≢ some who)
wrapped_periods_expire T s origin who hash name late by = (
  ap (λ r. commit_at T who hash (next_block T r.1)) (commit_lem T origin who by hash s)
      ∙ commit_expires T s late who hash,
  renewal_lost T s origin who by name late,
)
