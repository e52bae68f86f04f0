-- ===== src/Registry/Chain/Renewal.antt =====
-- What others can do to the entry of a name that its owner renews
-- (pallets/vanity-registry/src/lib.rs).
use vantiy_name_registry.Base.{ℕ, ◌≤◌, ◌<◌, ◌≡◌, ◌≢◌, refl, ap, ◌∙◌, some, List, [], ◌∷◌, arith}
use vantiy_name_registry.Registry.{
  Config, OwnerOf, State, Request, renew_call, unregister_call, dispatch, renew, hash_of,
  insert_commit, remove_commit, remove_owner,
}
use vantiy_name_registry.Registry.Calls.{owner_at, new_end, new_period, renew_owned}
use vantiy_name_registry.Registry.Entries.{
  owner_at-insert_owner_self, owner_at-insert_owner_ne, owner_at-remove_owner_ne,
  owner_at-update_locked_fund,
}
use vantiy_name_registry.Registry.Transitions.{
  Transition, commit_made, name_claimed, reveal_lost, name_renewed, name_given_up, revealed_owner,
  renewed_owner, dispatch_preserves,
}
use vantiy_name_registry.Registry.Claims.{IsSafe, Safe-discredited, Safe-owned}
use vantiy_name_registry.Registry.Claims.Dispatch.{IsSafe-dispatch}
use vantiy_name_registry.Registry.Expiry.Names.{still_owned}
use vantiy_name_registry.Registry.Chain.{next_block}
use vantiy_name_registry.Registry.Chain.Keeping.{
  owner_at-next_block, still_owned-late, IsSafe-next_block,
}
use vantiy_name_registry.Registry.Chain.Waiting.{
  Move, call_of, end_of_block, run_moves, block_number-run_moves,
}
use vantiy_name_registry.Registry.Chain.Periods.Reached.{block_number-next_block}

module _ (T : Config) (name : T.Name) (who : T.AccountId) where
  -- A call that is not a renewal or an `unregister` of the name by `who`.
  abbrev LeavesAlone : T.Origin → Request T → Type 0
  LeavesAlone origin q =
      T.ensure_signed origin ≡ some who → (q ≢ unregister_call name) × (q ≢ renew_call name)

  abbrev pub LeaveAlone : List (Move T) → Type 0
  LeaveAlone [] = Unit
  LeaveAlone (call_of origin q ∷ ms) = LeavesAlone origin q × LeaveAlone ms
  LeaveAlone (end_of_block ∷ ms) = LeaveAlone ms

module _ (T : Config) (name : T.Name) (who : T.AccountId) (b : ℕ) where
  -- The entry of a safe name is changed by the holder's own calls alone.
  owner_at-Transition :
      (x : T.AccountId) (q : Request T) (s t : State T)
      → (x ≡ who → (q ≢ unregister_call name) × (q ≢ renew_call name))
      → Transition T x s t q
      → IsSafe T name who b s
      → owner_at T name t ≡ owner_at T name s
  unfolding insert_commit remove_commit
  owner_at-Transition x q s t alone (commit_made {hash} e) h =
      ap (owner_at T name) e
      ∙ owner_at-update_locked_fund T x name (insert_commit T x hash (new_period T s) s)
  owner_at-Transition x q s t alone (name_claimed {name = m} {p} c d e) h =
      ap (owner_at T name) e
      ∙ owner_at-insert_owner_ne T m name (revealed_owner T x m p)
          (remove_commit T x (hash_of T x m) s)
          (λ k. cc (Safe-discredited T name who b x m p s k c h, d))
  owner_at-Transition x q s t alone (reveal_lost {name = m} c d e) h =
      ap (owner_at T name) e
      ∙ owner_at-update_locked_fund T x name (remove_commit T x (hash_of T x m) s)
  owner_at-Transition x q s t alone (name_renewed {name = m} {o} c d e) h =
      ap (owner_at T name) e
      ∙ owner_at-insert_owner_ne T m name (renewed_owner T o s) s
          (λ k. (alone (Safe-owned T name who b x m o s c d k h)).1 (ap renew_call k))
  owner_at-Transition x q s t alone (name_given_up {name = m} {o} c d e) h =
      ap (owner_at T name) e
      ∙ owner_at-update_locked_fund T x name (remove_owner T m s)
      ∙ owner_at-remove_owner_ne T m name s
          (λ k. (alone (Safe-owned T name who b x m o s c d k h)).0 (ap unregister_call k))

  owner_at-dispatch :
      (origin : T.Origin) (q : Request T) (s : State T)
      → LeavesAlone T name who origin q
      → IsSafe T name who b s
      → owner_at T name (dispatch T origin q s).1 ≡ owner_at T name s
  owner_at-dispatch origin q s alone h =
      dispatch_preserves T origin q s (λ t. owner_at T name t ≡ owner_at T name s) refl
        (λ x t by step. owner_at-Transition x q s t (λ k. alone (by ∙ ap some k)) step h)

  pub owner_at-run_moves :
      (ms : List (Move T)) (o : OwnerOf T) (s : State T)
      → LeaveAlone T name who ms
      → (run_moves T ms s).block_number ≤ o.lock_period.end
      → IsSafe T name who b s
      → owner_at T name s ≡ some o
      → owner_at T name (run_moves T ms s) ≡ some o
  unfolding run_moves
  owner_at-run_moves [] o s alone late h e = e
  owner_at-run_moves (call_of origin q ∷ ms) o s alone late h e =
      owner_at-run_moves ms o (dispatch T origin q s).1 alone.1 late
        (IsSafe-dispatch T origin q name who b s (λ k. (alone.0 k.0).0 k.1) h)
        (owner_at-dispatch origin q s alone.0 h ∙ e)
  owner_at-run_moves (end_of_block ∷ ms) o s alone late h e =
      let early : s.block_number < o.lock_period.end =
        omega (
          arith,
          late,
          block_number-next_block T s,
          block_number-run_moves T ms (next_block T s),
        ) in
      owner_at-run_moves ms o (next_block T s) alone late
        (IsSafe-next_block T name who b o s e early h)
        (owner_at-next_block T name s
          ∙ ap (still_owned T s.block_number) e
          ∙ still_owned-late T s.block_number o early)

-- The owner of a name, with no older claim to it pending, renews it. Then up to the end of the new
-- period, under any calls in any of the blocks in which the owner does not renew it again or give it up,
-- the entry of the name is just the one that the renewal wrote: the same owner, commit and begin, and an end
-- a register period from the block of the renewal.
pub renew-keeps :
    (T : Config) (ms : List (Move T)) (origin : T.Origin) (name : T.Name) (o : OwnerOf T)
    (s : State T)
    → owner_at T name s ≡ some o
    → IsSafe T name o.id o.lock_period.begin s
    → T.ensure_signed origin ≡ some o.id
    → LeaveAlone T name o.id ms
    → (run_moves T ms (renew T origin name s).1).block_number ≤ new_end T s
    → owner_at T name (run_moves T ms (renew T origin name s).1)
      ≡ some (record o { lock_period = record { begin = o.lock_period.begin; end = new_end T s } })
unfolding dispatch
renew-keeps T ms origin name o s e h by alone late =
    owner_at-run_moves T name o.id o.lock_period.begin ms (renewed_owner T o s)
      (renew T origin name s).1 alone late
      (IsSafe-dispatch T origin (renew_call name) name o.id o.lock_period.begin s (λ k. cc k.1) h)
      (ap (λ r. owner_at T name r.1) (renew_owned T origin o.id by name o s e refl)
        ∙ owner_at-insert_owner_self T name (renewed_owner T o s) s)
