-- ===== src/Registry/Claims/Dispatch.antt =====
-- The holder of a name under the calls of pallets/vanity-registry/src/lib.rs.
use vantiy_name_registry.Base.{ℕ, ◌≡◌, ◌≢◌, sym, ap, subst, ◌∙◌, some}
use vantiy_name_registry.Registry.{
  Config, OwnerOf, State, Request, reveal_call, unregister_call, dispatch, update_locked_fund,
  insert_commit, insert_owner, remove_owner, name_freed,
}
use vantiy_name_registry.Registry.Calls.{owner_at, new_period}
use vantiy_name_registry.Registry.Transitions.{
  renewed_owner, after_renewal, after_unregister, Transition, Transition-reveal_found, commit_made,
  name_renewed, name_given_up, dispatch_preserves,
}
use vantiy_name_registry.Registry.Claims.{
  holder, IsSafe, Safe-insert_commit, Safe-insert_owner_ne, Safe-insert_owner_self,
  Safe-remove_owner_ne, Safe-owned, Safe-reveal_found, Safe-update_locked_fund, Safe-deposit_event,
}

module _ (T : Config) (name : T.Name) (who : T.AccountId) (b : ℕ) where
  abbrev SafeAt : State T → Type 0
  SafeAt = IsSafe T name who b

  Safe-after_renewal :
      (m : T.Name) (o : OwnerOf T) (s : State T)
      → owner_at T m s ≡ some o
      → SafeAt s
      → SafeAt (after_renewal T m o s)
  Safe-after_renewal m o s e h = elim (T.name_discrete m name) [
    | yes q ↦
        subst (λ k. SafeAt (insert_owner T k (renewed_owner T o s) s)) (sym q)
          (Safe-insert_owner_self T name who b (renewed_owner T o s) s
            (ap (holder T) (sym (subst (λ k. owner_at T k s ≡ some o) q e)) ∙ h.held) h)
    | no ne ↦ Safe-insert_owner_ne T name who b m (renewed_owner T o s) s ne h
  ]

  Safe-after_unregister :
      (x : T.AccountId) (m : T.Name) (s : State T)
      → m ≢ name
      → SafeAt s
      → SafeAt (after_unregister T x m s)
  Safe-after_unregister x m s ne h =
      Safe-deposit_event T name who b (name_freed m) (update_locked_fund T x (remove_owner T m s)) (
        Safe-update_locked_fund T name who b x (remove_owner T m s)
          (Safe-remove_owner_ne T name who b m s ne h))

  -- Only the holder's own `unregister` of the name takes it away.
  Safe-Transition :
      (x : T.AccountId) (q : Request T) (s t : State T)
      → ¬ ((x ≡ who) × (q ≡ unregister_call name))
      → Transition T x s t q
      → SafeAt s
      → SafeAt t
  Safe-Transition x q s t keeps (commit_made {hash} e) h = subst SafeAt (sym e) (
      Safe-update_locked_fund T name who b x (insert_commit T x hash (new_period T s) s)
        (Safe-insert_commit T name who b x hash (new_period T s) s h.past h))
  Safe-Transition x (reveal_call m) s t keeps step h =
      let (p, c, e) = Transition-reveal_found T x m s t step in
      subst SafeAt e (Safe-reveal_found T name who b x m p s c h)
  Safe-Transition x q s t keeps (name_renewed {name = m} {o} c d e) h =
      subst SafeAt (sym e) (Safe-after_renewal m o s c h)
  Safe-Transition x q s t keeps (name_given_up {name = m} {o} c d e) h = subst SafeAt (sym e) (
      Safe-after_unregister x m s
        (λ k. keeps (Safe-owned T name who b x m o s c d k h, ap unregister_call k)) h)

-- A name whose holder has the oldest claim stays with its holder, since the same block, under every
-- call but the holder's own `unregister` of it: no reveal, commit or renewal of anybody else takes it.
pub IsSafe-dispatch :
    (T : Config) (origin : T.Origin) (q : Request T) (name : T.Name) (who : T.AccountId) (b : ℕ)
    (s : State T)
    → ¬ ((T.ensure_signed origin ≡ some who) × (q ≡ unregister_call name))
    → IsSafe T name who b s
    → IsSafe T name who b (dispatch T origin q s).1
IsSafe-dispatch T origin q name who b s keeps h =
    dispatch_preserves T origin q s (IsSafe T name who b) h (λ x t by step.
      Safe-Transition T name who b x q s t (λ k. keeps (by ∙ ap some k.0, k.1)) step h)
