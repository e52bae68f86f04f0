-- ===== src/Registry/Transitions.antt =====
-- The calls of pallets/vanity-registry/src/lib.rs as a relation between states: what each kind of call
-- that succeeds changes, and when. A proof about every call goes by the cases of this relation.
use vantiy_name_registry.Base.{
  ◌≡◌, refl, sym, ap, subst, ◌∙◌, ◌⊎◌, ◌↔◌, inl, inr, true, false, some, Bool-cases, Option-cases,
}
use vantiy_name_registry.Frame.Dispatch.{DispatchError, bad_origin, pallet_error, Result, ok, err}
use vantiy_name_registry.Registry.{
  Config, LockPeriod, OwnerOf, Error, name_not_found, name_not_owned, commit_not_found, name_owned,
  name_freed, reveal_discredited, State, Request, commit_call, reveal_call, renew_call,
  unregister_call, dispatch, hash_of, deposit_event, update_locked_fund, insert_commit,
  remove_commit, insert_owner, remove_owner, is_discredited,
}
use vantiy_name_registry.Registry.Counting.{commit_at}
use vantiy_name_registry.Registry.Calls.{
  owner_at, new_end, new_period, reveal_found, commit_lem, reveal_unknown, reveal_known,
  renew_owned, renew_not_owned, renew_not_found, unregister_owned, unregister_not_owned,
  unregister_not_found,
}
use vantiy_name_registry.Registry.Outcomes.{dispatch_unsigned}

module _ (T : Config) where
  -- The owner that a reveal makes of its commit, and the one that a renewal makes of an owner.
  abbrev pub revealed_owner : T.AccountId → T.Name → LockPeriod → OwnerOf T
  revealed_owner who name p = record { id = who; commit = hash_of T who name; lock_period = p }

  abbrev pub renewed_owner : OwnerOf T → State T → OwnerOf T
  renewed_owner o s = record o {
    lock_period = record { begin = o.lock_period.begin; end = new_end T s };
  }

  -- The states that a call of `who` leads to.
  abbrev pub after_commit : T.AccountId → T.Hash → State T → State T
  after_commit who hash s = update_locked_fund T who (insert_commit T who hash (new_period T s) s)

  abbrev pub after_claim : T.AccountId → T.Name → LockPeriod → State T → State T
  after_claim who name p s =
      deposit_event T (name_owned name who) (
        insert_owner T name (revealed_owner who name p)
          (remove_commit T who (hash_of T who name) s))

  abbrev pub after_late_reveal : T.AccountId → T.Name → State T → State T
  after_late_reveal who name s =
      deposit_event T (reveal_discredited name who)
        (update_locked_fund T who (remove_commit T who (hash_of T who name) s))

  abbrev pub after_renewal : T.Name → OwnerOf T → State T → State T
  after_renewal name o s = insert_owner T name (renewed_owner o s) s

  abbrev pub after_unregister : T.AccountId → T.Name → State T → State T
  after_unregister who name s =
      deposit_event T (name_freed name) (update_locked_fund T who (remove_owner T name s))

-- A call of `who` that leads from `s` to `t`.
pub data Transition (T : Config) (who : T.AccountId) (s t : State T) : Request T → Type 0 where
  commit_made :
      {hash : T.Hash} → t ≡ after_commit T who hash s → Transition T who s t (commit_call hash)
  name_claimed :
      {name : T.Name} {p : LockPeriod}
      → commit_at T who (hash_of T who name) s ≡ some p
      → is_discredited T (owner_at T name s) p ≡ false
      → t ≡ after_claim T who name p s
      → Transition T who s t (reveal_call name)
  reveal_lost :
      {name : T.Name} {p : LockPeriod}
      → commit_at T who (hash_of T who name) s ≡ some p
      → is_discredited T (owner_at T name s) p ≡ true
      → t ≡ after_late_reveal T who name s
      → Transition T who s t (reveal_call name)
  name_renewed :
      {name : T.Name} {o : OwnerOf T}
      → owner_at T name s ≡ some o
      → o.id ≡ who
      → t ≡ after_renewal T name o s
      → Transition T who s t (renew_call name)
  name_given_up :
      {name : T.Name} {o : OwnerOf T}
      → owner_at T name s ≡ some o
      → o.id ≡ who
      → t ≡ after_unregister T who name s
      → Transition T who s t (unregister_call name)

-- Both ways in which a reveal can end, as one state.
pub Transition-reveal_found :
    (T : Config) (who : T.AccountId) (name : T.Name) (s t : State T)
    → Transition T who s t (reveal_call name)
    → (p : LockPeriod) × (commit_at T who (hash_of T who name) s ≡ some p)
      × (reveal_found T who name p s ≡ t)
Transition-reveal_found T who name s t (name_claimed {p} c d e) = (p, c, rw d (sym e))
Transition-reveal_found T who name s t (reveal_lost {p} c d e) = (p, c, rw d (sym e))

module _ (T : Config) (origin : T.Origin) (who : T.AccountId)
    (by : T.ensure_signed origin ≡ some who) (s : State T) where
  -- How a call ends: it is refused, or it makes a transition.
  abbrev Ends : Request T → Result Error (Unit {0}) × State T → Type 0
  Ends q r =
      ((x : DispatchError Error) × (r ≡ (err x, s)))
      ⊎ ((t : State T) × Transition T who s t q × (r ≡ (ok tt, t)))

  reveal-Ends :
      (name : T.Name) (p : LockPeriod)
      → commit_at T who (hash_of T who name) s ≡ some p
      → (t : State T) × Transition T who s t (reveal_call name) × (reveal_found T who name p s ≡ t)
  reveal-Ends name p e = elim (Bool-cases (is_discredited T (owner_at T name s) p)) [
    | inl d ↦ (after_late_reveal T who name s, reveal_lost e d refl, rw d refl)
    | inr d ↦ (after_claim T who name p s, name_claimed e d refl, rw d refl)
  ]

  signed-Ends : (q : Request T) → Ends q (dispatch T origin q s)
  unfolding dispatch
  signed-Ends (commit_call hash) =
      inr (after_commit T who hash s, commit_made refl, commit_lem T origin who by hash s)
  signed-Ends (reveal_call name) = elim (Option-cases (commit_at T who (hash_of T who name) s)) [
    | inl e ↦ inl (pallet_error commit_not_found, reveal_unknown T origin who by name s e)
    | inr (p, e) ↦
        let (t, step, to) = reveal-Ends name p e in
        inr (t, step, reveal_known T origin who by name p s e ∙ ap (λ x. (ok tt, x)) to)
  ]
  signed-Ends (renew_call name) = elim (Option-cases (owner_at T name s)) [
    | inl e ↦ inl (pallet_error name_not_found, renew_not_found T origin who by name s e)
    | inr (o, e) ↦ elim (T.account_discrete o.id who) [
      | no n ↦ inl (pallet_error name_not_owned, renew_not_owned T origin who by name o s e n)
      | yes q ↦ inr (
        after_renewal T name o s,
        name_renewed e q refl,
        renew_owned T origin who by name o s e q,
      )
    ]
  ]
  signed-Ends (unregister_call name) = elim (Option-cases (owner_at T name s)) [
    | inl e ↦ inl (pallet_error name_not_found, unregister_not_found T origin who by name s e)
    | inr (o, e) ↦ elim (T.account_discrete o.id who) [
      | no n ↦ inl (pallet_error name_not_owned, unregister_not_owned T origin who by name o s e n)
      | yes q ↦ inr (
        after_unregister T who name s,
        name_given_up e q refl,
        unregister_owned T origin who by name o s e q,
      )
    ]
  ]

  -- The relation is what the call computes: each transition is one that it makes.
  pub dispatch_of_Transition :
      (q : Request T) (t : State T) → Transition T who s t q → dispatch T origin q s ≡ (ok tt, t)
  unfolding dispatch
  dispatch_of_Transition (commit_call hash) t (commit_made e) =
      commit_lem T origin who by hash s ∙ ap (λ x. (ok tt, x)) (sym e)
  dispatch_of_Transition (reveal_call name) t (name_claimed {p} c d e) =
      reveal_known T origin who by name p s c ∙ ap (λ x. (ok tt, x)) (rw d (sym e))
  dispatch_of_Transition (reveal_call name) t (reveal_lost {p} c d e) =
      reveal_known T origin who by name p s c ∙ ap (λ x. (ok tt, x)) (rw d (sym e))
  dispatch_of_Transition (renew_call name) t (name_renewed {o} c d e) =
      renew_owned T origin who by name o s c d ∙ ap (λ x. (ok tt, x)) (sym e)
  dispatch_of_Transition (unregister_call name) t (name_given_up {o} c d e) =
      unregister_owned T origin who by name o s c d ∙ ap (λ x. (ok tt, x)) (sym e)

module _ (T : Config) (origin : T.Origin) (q : Request T) (s : State T) where
  -- Every call is refused and changes nothing, or is signed and makes a transition.
  pub dispatch-cases :
      ((x : DispatchError Error) × (dispatch T origin q s ≡ (err x, s)))
      ⊎ ((who : T.AccountId) × (t : State T) × (T.ensure_signed origin ≡ some who)
          × Transition T who s t q
          × (dispatch T origin q s ≡ (ok tt, t)))
  dispatch-cases = elim (Option-cases (T.ensure_signed origin)) [
    | inl u ↦ inl (bad_origin, dispatch_unsigned T origin q s u)
    | inr (who, by) ↦ elim (signed-Ends T origin who by s q) [
      | inl refused ↦ inl refused
      | inr (t, step, to) ↦ inr (who, t, by, step, to)
    ]
  ]

  -- What every transition keeps, every call keeps.
  pub dispatch_preserves :
      (P : State T → Type 0)
      → P s
      → ((who : T.AccountId) (t : State T)
          → T.ensure_signed origin ≡ some who
          → Transition T who s t q
          → P t)
      → P (dispatch T origin q s).1
  dispatch_preserves P h keep = elim dispatch-cases [
    | inl (x, e) ↦ subst P (sym (ap (λ r. r.1) e)) h
    | inr (who, t, by, step, e) ↦ subst P (sym (ap (λ r. r.1) e)) (keep who t by step)
  ]

-- A signed call succeeds and leads to the state `t` just where there is a transition to `t`.
pub dispatch-iff-Transition :
    (T : Config) (origin : T.Origin) (who : T.AccountId) (q : Request T) (s t : State T)
    → T.ensure_signed origin ≡ some who
    → (dispatch T origin q s ≡ (ok tt, t)) ↔ Transition T who s t q
dispatch-iff-Transition T origin who q s t by = (
  λ e. elim (signed-Ends T origin who by s q) [
    | inl (x, n) ↦ absurd (cc (e, n))
    | inr (t', step, to) ↦ subst (λ r. Transition T who s r q) (ap (λ r. r.1) (sym to ∙ e)) step
  ],
  dispatch_of_Transition T origin who by s q t,
)
