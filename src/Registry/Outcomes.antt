-- ===== src/Registry/Outcomes.antt =====
-- The results and the failures of the calls of pallets/vanity-registry/src/lib.rs.
use vantiy_name_registry.Base.{◌≡◌, ap, inl, inr, Option, none, some, arith, Option-cases}
use vantiy_name_registry.Frame.Dispatch.{DispatchError, bad_origin, pallet_error, Result, ok, err}
use vantiy_name_registry.Registry.{
  Config, LockPeriod, OwnerOf, Error, name_not_found, name_not_owned, commit_not_found, State,
  hash_of, Request, commit_call, reveal_call, renew_call, unregister_call, dispatch, commit, reveal,
  renew, unregister, ensure_owner,
}
use vantiy_name_registry.Registry.Counting.{commit_at}
use vantiy_name_registry.Registry.Calls.{owner_at, commit_lem, reveal_unknown, reveal_known}

module _ (T : Config) where
  -- How a call must end, by the table of what it needs.
  abbrev pub owner_outcome : T.AccountId → Option (OwnerOf T) → Result Error (Unit {0})
  owner_outcome who none = err (pallet_error name_not_found)
  owner_outcome who (some o) = elim (T.account_discrete o.id who) [
    | yes _ ↦ ok tt
    | no _ ↦ err (pallet_error name_not_owned)
  ]

  abbrev pub claim_outcome : Option LockPeriod → Result Error (Unit {0})
  claim_outcome none = err (pallet_error commit_not_found)
  claim_outcome (some _) = ok tt

  abbrev pub outcome : T.AccountId → Request T → State T → Result Error (Unit {0})
  outcome who (commit_call hash) s = ok tt
  outcome who (reveal_call name) s = claim_outcome (commit_at T who (hash_of T who name) s)
  outcome who (renew_call name) s = owner_outcome who (owner_at T name s)
  outcome who (unregister_call name) s = owner_outcome who (owner_at T name s)

  -- A call without a signature is refused.
  pub dispatch_unsigned :
      (origin : T.Origin) (q : Request T) (s : State T)
      → T.ensure_signed origin ≡ none
      → dispatch T origin q s ≡ (err bad_origin, s)
  unfolding dispatch commit reveal renew unregister
  dispatch_unsigned origin (commit_call hash) s e = ground arith
  dispatch_unsigned origin (reveal_call name) s e = ground arith
  dispatch_unsigned origin (renew_call name) s e = ground arith
  dispatch_unsigned origin (unregister_call name) s e = ground arith

module _ (T : Config) (origin : T.Origin) (who : T.AccountId)
    (by : T.ensure_signed origin ≡ some who) where
  -- A signed call ends by the table: a commit always succeeds; a reveal fails with `CommitNotFound`
  -- just where there is no commit of the account to the name; a renewal and an unregister fail with
  -- `NameNotFound` just where the name has no owner, and with `NameNotOwned` where it has another.
  pub dispatch-outcome :
      (q : Request T) (s : State T) → (dispatch T origin q s).0 ≡ outcome T who q s
  unfolding dispatch renew unregister ensure_owner
  dispatch-outcome (commit_call hash) s = ap (λ r. r.0) (commit_lem T origin who by hash s)
  dispatch-outcome (reveal_call name) s =
      elim (Option-cases (commit_at T who (hash_of T who name) s)) [
        | inl e ↦ rw (reveal_unknown T origin who by name s e, e)
        | inr (p, e) ↦ rw (reveal_known T origin who by name p s e, e)
      ]
  dispatch-outcome (renew_call name) s = ground arith
  dispatch-outcome (unregister_call name) s = ground arith

  dispatch_failed :
      (q : Request T) (s : State T) (e : DispatchError Error)
      → (dispatch T origin q s).0 ≡ err e
      → (dispatch T origin q s).1 ≡ s
  unfolding dispatch renew unregister ensure_owner
  dispatch_failed (commit_call hash) s e h = cc (commit_lem T origin who by hash s, h)
  dispatch_failed (reveal_call name) s e h =
      elim (Option-cases (commit_at T who (hash_of T who name) s)) [
        | inl n ↦ ap (λ r. r.1) (reveal_unknown T origin who by name s n)
        | inr (p, n) ↦ cc (reveal_known T origin who by name p s n, h)
      ]
  dispatch_failed (renew_call name) s e h = ground arith
  dispatch_failed (unregister_call name) s e h = ground arith

-- A call that fails, for whatever reason and whoever made it, leaves the state as it was.
pub dispatch-atomic :
    (T : Config) (origin : T.Origin) (q : Request T) (s : State T) (e : DispatchError Error)
    → (dispatch T origin q s).0 ≡ err e
    → (dispatch T origin q s).1 ≡ s
dispatch-atomic T origin q s e h = elim (Option-cases (T.ensure_signed origin)) [
  | inl u ↦ ap (λ r. r.1) (dispatch_unsigned T origin q s u)
  | inr (who, by) ↦ dispatch_failed T origin who by q s e h
]
