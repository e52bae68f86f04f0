-- ===== src/Registry/Spec/Refines.antt =====
-- The calls of pallets/vanity-registry/src/lib.rs do to the state what Spec says of its view.
use mathlib.Core.Logic.{if_pos, if_neg}
use vantiy_name_registry.Base.{
  ◌≡◌, refl, sym, ap, ap₂, ◌∙◌, ◌≢◌, inl, inr, Bool, true, false, Option, none, some, arith,
  if◌then◌else◌, Option-cases,
}
use vantiy_name_registry.Frame.Dispatch.{pallet_error, Result, ok, err}
use vantiy_name_registry.Registry.{
  Config, LockPeriod, OwnerOf, Error, name_not_found, name_not_owned, name_owned, name_freed,
  reveal_discredited, State, hash_of, Request, commit_call, reveal_call, renew_call,
  unregister_call, dispatch, deposit_event, update_locked_fund, insert_commit, remove_commit,
  insert_owner, remove_owner, commit, reveal, renew, unregister, is_discredited,
}
use vantiy_name_registry.Registry.Counting.{commit_at}
use vantiy_name_registry.Registry.Outcomes.{dispatch_unsigned}
use vantiy_name_registry.Registry.Funds.{IsFunded}
use vantiy_name_registry.Registry.Calls.{
  owner_at, new_period, reveal_found, commit_lem, reveal_unknown, reveal_known, renew_owned,
  renew_not_owned, renew_not_found, unregister_owned, unregister_not_owned, unregister_not_found,
}
use vantiy_name_registry.Registry.Spec.{
  View, Outcome, view, settle, announce, drop_commit, assign, beats, claim, claim_with, as_owner,
  spec_commit, spec_reveal, spec_renew, spec_unregister, spec_signed, spec_dispatch,
}
use vantiy_name_registry.Registry.Spec.Views.{
  view-update_locked_fund, view-deposit_event, view-insert_owner, view-remove_owner,
  view-insert_commit, view-remove_commit,
}

-- The result of a call, and the view of the state that it leaves.
abbrev pub seen : (T : Config) → Result Error (Unit {0}) × State T → Outcome T
seen T (r, s) = (r, view T s)

-- The code keeps the owner where the claim is not older; the specification names the winner.
if-beats :
    (T : Config) {A : Type 0} (o : Option (OwnerOf T)) (p : LockPeriod) (x y : A)
    → (if is_discredited T o p then x else y) ≡ (if beats T p o then y else x)
if-beats T none p x y = refl
if-beats T (some o) p x y = ground arith

ap-if :
    {A B : Type 0} (f : A → B) (b : Bool) (x y : A)
    → f (if b then x else y) ≡ (if b then f x else f y)
ap-if f true x y = refl
ap-if f false x y = refl

module _ (T : Config) (v : IsFunded T) (origin : T.Origin) (who : T.AccountId)
    (by : T.ensure_signed origin ≡ some who) where
  commit-refines :
      (hash : T.Hash) (s : State T)
      → seen T (commit T origin hash s) ≡ spec_commit T who hash (view T s)
  unfolding spec_commit view
  commit-refines hash s =
      ap (seen T) (commit_lem T origin who by hash s)
      ∙ ap (λ x. (ok tt, x))
          (view-update_locked_fund T who (insert_commit T who hash (new_period T s) s) v
            ∙ ap (settle T who) (view-insert_commit T who hash (new_period T s) s))

  view-discredited :
      (name : T.Name) (s : State T) (w : View T)
      → view T s ≡ w
      → view T (deposit_event T (reveal_discredited name who) (update_locked_fund T who s))
        ≡ announce T (reveal_discredited name who) (settle T who w)
  view-discredited name s w e =
      view-deposit_event T (reveal_discredited name who) (update_locked_fund T who s)
      ∙ ap (announce T (reveal_discredited name who))
          (view-update_locked_fund T who s v ∙ ap (settle T who) e)

  view-owned :
      (name : T.Name) (o : OwnerOf T) (s : State T) (w : View T)
      → view T s ≡ w
      → view T (deposit_event T (name_owned name who) (insert_owner T name o s))
        ≡ announce T (name_owned name who) (assign T name (some o) w)
  view-owned name o s w e =
      view-deposit_event T (name_owned name who) (insert_owner T name o s)
      ∙ ap (announce T (name_owned name who))
          (view-insert_owner T name o s ∙ ap (assign T name (some o)) e)

  view-reveal_found :
      (name : T.Name) (p : LockPeriod) (s : State T)
      → commit_at T who (hash_of T who name) s ≡ some p
      → view T (reveal_found T who name p s)
        ≡ claim T who name p (drop_commit T who (hash_of T who name) (view T s))
  unfolding view
  view-reveal_found name p s e =
      let h = hash_of T who name in
      let taken = remove_commit T who h s in
      let owner : OwnerOf T = record { id = who; commit = h; lock_period = p } in
      let lost = deposit_event T (reveal_discredited name who) (update_locked_fund T who taken) in
      let won = deposit_event T (name_owned name who) (insert_owner T name owner taken) in
      let dropped = view-remove_commit T who h s (λ n. cc (e, n)) in
      let o = owner_at T name s in
      ap-if (view T) (is_discredited T o p) lost won
      ∙ if-beats T o p (view T lost) (view T won)
      ∙ ap₂ (λ x y. if beats T p o then x else y)
          (view-owned name owner taken (drop_commit T who h (view T s)) dropped)
          (view-discredited name taken (drop_commit T who h (view T s)) dropped)

  reveal-refines :
      (name : T.Name) (s : State T)
      → seen T (reveal T origin name s) ≡ spec_reveal T who name (view T s)
  unfolding spec_reveal view
  reveal-refines name s = elim (Option-cases (commit_at T who (hash_of T who name) s)) [
    | inl e ↦
        ap (seen T) (reveal_unknown T origin who by name s e)
        ∙ ap (λ c. claim_with T who name c (view T s)) (sym e)
    | inr (p, e) ↦
        ap (seen T) (reveal_known T origin who by name p s e)
        ∙ ap (λ x. (ok tt, x)) (view-reveal_found name p s e)
        ∙ ap (λ c. claim_with T who name c (view T s)) (sym e)
  ]

  -- The three ways in which a call of an owner can go.
  as_owner-cases :
      (name : T.Name) (s : State T) (r : Result Error (Unit {0}) × State T)
      (act : OwnerOf T → View T)
      → (owner_at T name s ≡ none → r ≡ (err (pallet_error name_not_found), s))
      → ((o : OwnerOf T)
          → owner_at T name s ≡ some o
          → o.id ≢ who
          → r ≡ (err (pallet_error name_not_owned), s))
      → ((o : OwnerOf T) → owner_at T name s ≡ some o → o.id ≡ who → seen T r ≡ (ok tt, act o))
      → seen T r ≡ as_owner T who (owner_at T name s) act (view T s)
  as_owner-cases name s r act missing foreign own = elim (Option-cases (owner_at T name s)) [
    | inl e ↦ ap (seen T) (missing e) ∙ ap (λ o. as_owner T who o act (view T s)) (sym e)
    | inr (o, e) ↦ as_owner-some o e ∙ ap (λ o. as_owner T who o act (view T s)) (sym e)
  ]
    where
      as_owner-some :
          (o : OwnerOf T)
          → owner_at T name s ≡ some o
          → seen T r ≡ as_owner T who (some o) act (view T s)
      as_owner-some o e = elim (T.account_discrete o.id who) [
        | yes q ↦ rw (if_pos _ q) (own o e q)
        | no n ↦ rw (if_neg _ n) (ap (seen T) (foreign o e n))
      ]

  renew-refines :
      (name : T.Name) (s : State T)
      → seen T (renew T origin name s) ≡ spec_renew T who name (view T s)
  unfolding spec_renew view
  renew-refines name s =
      as_owner-cases name s (renew T origin name s) _ (renew_not_found T origin who by name s)
        (λ o. renew_not_owned T origin who by name o s)
        (λ o e q.
          ap (seen T) (renew_owned T origin who by name o s e q)
          ∙ ap (λ x. (ok tt, x)) (view-insert_owner T name _ s))

  unregister-refines :
      (name : T.Name) (s : State T)
      → seen T (unregister T origin name s) ≡ spec_unregister T who name (view T s)
  unfolding spec_unregister view
  unregister-refines name s =
      as_owner-cases name s (unregister T origin name s) _
        (unregister_not_found T origin who by name s)
        (λ o. unregister_not_owned T origin who by name o s)
        (λ o e q.
          ap (seen T) (unregister_owned T origin who by name o s e q)
          ∙ ap (λ x. (ok tt, x))
              (view-deposit_event T (name_freed name)
                  (update_locked_fund T who (remove_owner T name s))
                ∙ ap (announce T (name_freed name)) (
                    view-update_locked_fund T who (remove_owner T name s) v
                    ∙ ap (settle T who) (view-remove_owner T name s))))

  signed-refines :
      (q : Request T) (s : State T)
      → seen T (dispatch T origin q s) ≡ spec_signed T who q (view T s)
  unfolding dispatch spec_signed
  signed-refines (commit_call hash) s = commit-refines hash s
  signed-refines (reveal_call name) s = reveal-refines name s
  signed-refines (renew_call name) s = renew-refines name s
  signed-refines (unregister_call name) s = unregister-refines name s

-- Each of the four calls, by any origin, returns the result of the specification, and the state that
-- it leaves has the view of the specification, if the fund to lock is not zero.
pub dispatch-refines :
    (T : Config) (origin : T.Origin) (q : Request T) (s : State T)
    → IsFunded T
    → seen T (dispatch T origin q s) ≡ spec_dispatch T (T.ensure_signed origin) q (view T s)
unfolding spec_dispatch
dispatch-refines T origin q s v = elim (Option-cases (T.ensure_signed origin)) [
  | inl e ↦
      ap (seen T) (dispatch_unsigned T origin q s e)
      ∙ ap (λ w. spec_dispatch T w q (view T s)) (sym e)
  | inr (who, by) ↦
      signed-refines T v origin who by q s ∙ ap (λ w. spec_dispatch T w q (view T s)) (sym by)
]
