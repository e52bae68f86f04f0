-- ===== src/Registry/Ledger/Calls.antt =====
-- A call of pallets/vanity-registry/src/lib.rs on what a ledger says.
use mathlib.Core.List.{append-nil, Perm}
use mathlib.Core.List.Perm
use mathlib.Core.Logic.{if_pos, if_neg}
use mathlib.Mathlib.Data.Multiset.{coe-eq-coe}
use vantiy_name_registry.Base.{
  ◌≡◌, refl, sym, ap, ◌∙◌, inl, inr, Bool-cases, Option, none, some, List, [], ◌++◌,
}
use vantiy_name_registry.Frame.Dispatch.{pallet_error, Result, ok, err}
use vantiy_name_registry.Registry.{
  Config, LockPeriod, OwnerOf, EventOf, Error, name_not_owned, State, Request, commit_call,
  reveal_call, renew_call, unregister_call, dispatch, hash_of,
}
use vantiy_name_registry.Registry.Funds.{IsFunded}
use vantiy_name_registry.Registry.Spec.{
  View, Outcome, view, beats, claim, claim_with, as_owner, drop_commit, spec_commit, spec_reveal,
  spec_renew, spec_unregister, spec_signed, spec_dispatch,
}
use vantiy_name_registry.Registry.Spec.Refines.{seen, dispatch-refines}
use vantiy_name_registry.Registry.Ledger.{ledger_of, ledger}

module _ (T : Config) where
  abbrev quiet : View T → View T
  quiet v = record v { events = [] }

  -- The outcome behind some events.
  abbrev behind : List (EventOf T) → Outcome T → Outcome T
  behind es r = (r.0, record r.1 { events = es ++ r.1.events })

  silent : (r : Result Error (Unit {0})) (v : View T) → (r, v) ≡ behind v.events (r, quiet v)
  silent r v = ap (λ l. (r, record v { events = l })) (sym (append-nil v.events))

  claim-behind :
      (who : T.AccountId) (name : T.Name) (p : LockPeriod) (v : View T)
      → ◌≡◌ {A = Outcome T}
          (ok tt, claim T who name p v)
          (behind v.events (ok tt, claim T who name p (quiet v)))
  claim-behind who name p v = elim (Bool-cases (beats T p (v.owners name))) [
    | inl h ↦ rw h refl
    | inr h ↦ rw h refl
  ]

  claim_with-behind :
      (who : T.AccountId) (name : T.Name) (o : Option LockPeriod) (v : View T)
      → claim_with T who name o v ≡ behind v.events (claim_with T who name o (quiet v))
  claim_with-behind who name none v = silent _ v
  claim_with-behind who name (some p) v =
      claim-behind who name p (drop_commit T who (hash_of T who name) v)

  as_owner-behind :
      (who : T.AccountId) (o : Option (OwnerOf T)) (act quiet_act : OwnerOf T → View T) (v : View T)
      → ((x : OwnerOf T)
          → ◌≡◌ {A = Outcome T} (ok tt, act x) (behind v.events (ok tt, quiet_act x)))
      → as_owner T who o act v ≡ behind v.events (as_owner T who o quiet_act (quiet v))
  as_owner-behind who none act quiet_act v h = silent _ v
  as_owner-behind who (some o) act quiet_act v h =
      let not_owned : Result Error (Unit {0}) = err (pallet_error name_not_owned) in
      elim (T.account_discrete o.id who) [
        | yes q ↦
            if_pos (T.account_discrete o.id who) q (ok tt, act o) (not_owned, v)
            ∙ h o
            ∙ sym (
                ap (behind v.events) (
                  if_pos (T.account_discrete o.id who) q (ok tt, quiet_act o) (not_owned, quiet v)))
        | no n ↦
            if_neg (T.account_discrete o.id who) n (ok tt, act o) (not_owned, v)
            ∙ silent not_owned v
            ∙ sym (
                ap (behind v.events) (
                  if_neg (T.account_discrete o.id who) n (ok tt, quiet_act o) (not_owned, quiet v)))
      ]

  spec_signed-behind :
      (who : T.AccountId) (q : Request T) (v : View T)
      → spec_signed T who q v ≡ behind v.events (spec_signed T who q (quiet v))
  unfolding spec_signed spec_commit spec_reveal spec_renew spec_unregister
  spec_signed-behind who (commit_call hash) v = silent (ok tt) _
  spec_signed-behind who (reveal_call name) v =
      claim_with-behind who name (v.commits (who, hash_of T who name)) v
  spec_signed-behind who (renew_call name) v =
      as_owner-behind who (v.owners name) _ _ v (λ x. silent (ok tt) _)
  spec_signed-behind who (unregister_call name) v =
      as_owner-behind who (v.owners name) _ _ v (λ x. refl)

  spec_dispatch-behind :
      (x : Option T.AccountId) (q : Request T) (v : View T)
      → spec_dispatch T x q v ≡ behind v.events (spec_dispatch T x q (quiet v))
  unfolding spec_dispatch
  spec_dispatch-behind none q v = silent _ v
  spec_dispatch-behind (some who) q v = spec_signed-behind who q v

module _ (T : Config) (v : IsFunded T) (s t : State T) (e : ledger T s ≡ ledger T t) where
  same_events : Perm s.events t.events
  unfolding ledger
  same_events = coe-eq-coe.0 (ap (λ l. l.events) e)

  quiet-eq : quiet T (view T s) ≡ quiet T (view T t)
  unfolding ledger view
  quiet-eq = λ i. record {
    block_number = (e i).block_number;
    commits = (e i).commits;
    count = (e i).count;
    owners = (e i).owners;
    locks = (e i).locks;
    events = [];
  }

  module _ (origin : T.Origin) (q : Request T) where
    abbrev out : State T → Outcome T
    out x = spec_dispatch T (T.ensure_signed origin) q (quiet T (view T x))

    out-eq : out s ≡ out t
    out-eq = ap (spec_dispatch T (T.ensure_signed origin) q) quiet-eq

    seen-behind : (x : State T) → seen T (dispatch T origin q x) ≡ behind T x.events (out x)
    unfolding view
    seen-behind x =
        dispatch-refines T origin q x v
        ∙ spec_dispatch-behind T (T.ensure_signed origin) q (view T x)

    -- Where two states say the same, a call has the same result, and they say the same behind it.
    pub ledger-dispatch :
        ((dispatch T origin q s).0 ≡ (dispatch T origin q t).0)
        × (ledger T (dispatch T origin q s).1 ≡ ledger T (dispatch T origin q t).1)
    unfolding ledger
    ledger-dispatch = (
      ap (λ r. r.0) (seen-behind s) ∙ ap (λ r. r.0) out-eq ∙ sym (ap (λ r. r.0) (seen-behind t)),
      ap (λ r. ledger_of T r.1) (seen-behind s)
          ∙ reordered
          ∙ sym (ap (λ r. ledger_of T r.1) (seen-behind t)),
    )
      where
        reordered :
            ledger_of T (behind T s.events (out s)).1 ≡ ledger_of T (behind T t.events (out t)).1
        reordered =
            ap (λ m. record (ledger_of T (out s).1) { events = m })
              (coe-eq-coe.1 (Perm.append_right (out s).1.events same_events))
            ∙ ap (λ r. ledger_of T (behind T t.events r).1) out-eq
