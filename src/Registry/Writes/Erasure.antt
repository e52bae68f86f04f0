-- ===== src/Registry/Writes/Erasure.antt =====
-- The calls of pallets/vanity-registry/src/lib.rs on storage that counts its writes, against the
-- storage below.
use vantiy_name_registry.Base.{
  ℕ, ◌+◌, ◌*◌, ◌^◌, ◌≤◌, ◌<◌, arith, ◌≡◌, refl, sym, ap, ap₂, ◌∙◌, inl, inr, Bool-cases,
  Option-cases, ltb,
}
use vantiy_name_registry.Frame.Dispatch.{DispatchError, Result, ok, err}
use vantiy_name_registry.Registry.{
  Config, Error, State, Request, commit_call, reveal_call, renew_call, unregister_call, dispatch,
  hash_of, num_of_commits, amount_to_lock, update_locked_fund, insert_commit, remove_commit,
  insert_owner, remove_owner, deposit_event, name_freed, reveal_discredited,
}
use vantiy_name_registry.Registry.Calls.{new_period}
use vantiy_name_registry.Registry.Outcomes.{
  outcome, dispatch_unsigned, dispatch-outcome, dispatch-atomic,
}
use vantiy_name_registry.Registry.Transitions.{
  Transition, commit_made, name_claimed, reveal_lost, name_renewed, name_given_up, dispatch-cases,
  dispatch_of_Transition,
}
use vantiy_name_registry.Registry.Writes.{counted, writes, charged, writes-dispatch}
use vantiy_name_registry.Weights.Charges.{write_count, weight_of_writes, weight_of_writes-exact}
use vantiy_name_registry.Weights.{substrate_weight, unit_weight}
use vantiy_name_registry.Frame.Runtimes.{DbWeight}
use native.Mathlib.Nat.{add-mul}

module _ (T : Config) where
  abbrev pub erase : State (counted T) → State T
  erase s = record {
    block_number = s.block_number;
    lock_periods = s.lock_periods.0;
    owners = s.owners.0;
    locks = s.locks.0;
    events = s.events;
  }

  abbrev pub erase_request : Request (counted T) → Request T
  erase_request (commit_call hash) = commit_call hash
  erase_request (reveal_call name) = reveal_call name
  erase_request (renew_call name) = renew_call name
  erase_request (unregister_call name) = unregister_call name

  abbrev pub erased :
      Result Error (Unit {0}) × State (counted T) → Result Error (Unit {0}) × State T
  erased r = (r.0, erase r.1)

  erase-update_locked_fund :
      (id : T.AccountId) (s : State (counted T))
      → erase (update_locked_fund (counted T) id s) ≡ update_locked_fund T id (erase s)
  unfolding update_locked_fund num_of_commits amount_to_lock
  erase-update_locked_fund id s = elim (Bool-cases (ltb 0 (num_of_commits T id (erase s)))) [
    | inl h ↦ rw h refl
    | inr h ↦ rw h refl
  ]

  -- A transition on counting storage is one on the storage below.
  erase-Transition :
      (who : T.AccountId) (q : Request (counted T)) (s t : State (counted T))
      → Transition (counted T) who s t q
      → Transition T who (erase s) (erase t) (erase_request q)
  unfolding hash_of insert_commit remove_commit insert_owner remove_owner
  erase-Transition who (commit_call hash) s t (commit_made e) = commit_made (
      ap erase e
      ∙ erase-update_locked_fund who
          (insert_commit (counted T) who hash (new_period (counted T) s) s))
  erase-Transition who (reveal_call name) s t (name_claimed c d e) = name_claimed c d (ap erase e)
  erase-Transition who (reveal_call name) s t (reveal_lost c d e) = reveal_lost c d (
      ap erase e
      ∙ ap (deposit_event T (reveal_discredited name who)) (
          erase-update_locked_fund who
            (remove_commit (counted T) who (hash_of (counted T) who name) s)))
  erase-Transition who (renew_call name) s t (name_renewed c d e) = name_renewed c d (ap erase e)
  erase-Transition who (unregister_call name) s t (name_given_up c d e) = name_given_up c d (
      ap erase e
      ∙ ap (deposit_event T (name_freed name))
          (erase-update_locked_fund who (remove_owner (counted T) name s)))

  -- What a call needs is the same on both.
  erase-outcome :
      (who : T.AccountId) (q : Request (counted T)) (s : State (counted T))
      → outcome (counted T) who q s ≡ outcome T who (erase_request q) (erase s)
  unfolding hash_of
  erase-outcome who (commit_call hash) s = refl
  erase-outcome who (reveal_call name) s = refl
  erase-outcome who (renew_call name) s = refl
  erase-outcome who (unregister_call name) s = refl

module _ (T : Config) (origin : T.Origin) (q : Request (counted T)) (s : State (counted T)) where
  refused-erased :
      (x : DispatchError Error)
      → dispatch (counted T) origin q s ≡ (err x, s)
      → (dispatch T origin (erase_request T q) (erase T s)).0 ≡ err x
  refused-erased x e = elim (Option-cases (T.ensure_signed origin)) [
    | inl u ↦
        ap (λ r. r.0) (dispatch_unsigned T origin (erase_request T q) (erase T s) u)
        ∙ sym (ap (λ r. r.0) (dispatch_unsigned (counted T) origin q s u))
        ∙ ap (λ r. r.0) e
    | inr (who, by) ↦
        dispatch-outcome T origin who by (erase_request T q) (erase T s)
        ∙ sym (erase-outcome T who q s)
        ∙ sym (dispatch-outcome (counted T) origin who by q s)
        ∙ ap (λ r. r.0) e
  ]

  dispatch-erased :
      erased T (dispatch (counted T) origin q s) ≡ dispatch T origin (erase_request T q) (erase T s)
  dispatch-erased = elim (dispatch-cases (counted T) origin q s) [
    | inl (x, e) ↦
        let r = refused-erased x e in
        ap (erased T) e
        ∙ sym (
            ap₂ (λ (a : Result Error (Unit {0})) (b : State T). (a, b)) r
              (dispatch-atomic T origin (erase_request T q) (erase T s) x r))
    | inr (who, t, by, step, e) ↦
        ap (erased T) e
        ∙ sym (
            dispatch_of_Transition T origin who by (erase T s) (erase_request T q) (erase T t)
              (erase-Transition T who q s t step))
  ]

  charged-mul :
      (r : Result Error (Unit {0})) (n write : ℕ) → charged T r n * write ≡ charged T r (n * write)
  charged-mul (ok _) n write = refl
  charged-mul (err _) n write = omega arith

  -- What a call has written, in weight, where the weight is charged that its writes are charged for.
  writes-weight :
      (weight write : ℕ)
      → weight ≡ write_count (counted T) q * write
      → let r = dispatch (counted T) origin q s in
        writes T r.1 * write ≡ charged T r.0 weight + writes T s * write
  writes-weight weight write e =
      let r = dispatch (counted T) origin q s in
      let n = write_count (counted T) q in
      ap (λ x. x * write) (writes-dispatch T origin q s)
      ∙ add-mul (charged T r.0 n) (writes T s) write
      ∙ ap (λ x. x + writes T s * write) (charged-mul r.0 n write ∙ ap (charged T r.0) (sym e))

-- Whoever makes it, a call on storage that counts its writes is, without the counters, the call on the
-- storage below. Where a read and a write of the database weigh fixed amounts below 2 ^ 60, a call that
-- succeeds has written, whichever way a reveal ends, exactly what is charged for its writes: so many writes
-- that their weight is the part of the call's weight which it would not weigh if writes were free. This
-- holds of both implementations of the weights. A call that fails has not written. A write is an insertion
-- into or a removal from one of the two maps, or a call of the currency that sets or removes a lock; the
-- deposit of an event is none.
pub dispatch-writes :
    (T : Config) (D : DbWeight) (origin : T.Origin) (q : Request (counted T))
    (s : State (counted T)) (read write : ℕ)
    → ((n : ℕ) → n ≤ 3 → D.reads n ≡ n * read)
    → ((n : ℕ) → n ≤ 3 → D.writes n ≡ n * write)
    → read < 2 ^ 60
    → write < 2 ^ 60
    → let r = dispatch (counted T) origin q s in
      (erased T r ≡ dispatch T origin (erase_request T q) (erase T s))
      × (writes T r.1 * write
          ≡ charged T r.0 (weight_of_writes (counted T) substrate_weight D q) + writes T s * write)
      × (writes T r.1 * write
          ≡ charged T r.0 (weight_of_writes (counted T) unit_weight D q) + writes T s * write)
dispatch-writes T D origin q s read write hr hw lr lw =
    let (substrate, unit) = weight_of_writes-exact (counted T) D q read write hr hw lr lw in
    (
      dispatch-erased T origin q s,
      writes-weight T origin q s (weight_of_writes (counted T) substrate_weight D q) write
          substrate,
      writes-weight T origin q s (weight_of_writes (counted T) unit_weight D q) write unit,
    )
