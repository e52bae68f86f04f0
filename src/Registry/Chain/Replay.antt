-- ===== src/Registry/Chain/Replay.antt =====
-- Who owns the names of pallets/vanity-registry/src/lib.rs, told from its events alone, as a client that
-- follows the chain does.
use mathlib.Core.Logic.{if_pos, if_neg}
use vantiy_name_registry.Base.{
  ◌≡◌, refl, sym, ap, subst, ◌∙◌, Option, none, some, List, [], ◌∷◌, ◌++◌, ite,
}
use vantiy_name_registry.Registry.{
  Config, OwnerOf, EventOf, name_owned, name_freed, reveal_discredited, commit_expired, State,
  Request, deposit_event, hash_of, update_locked_fund, insert_commit, remove_commit, insert_owner,
  remove_owner, expire_commit, expire_commits, expired_commits, remove_expired_commits, free_name,
  free_names, expired_names, remove_expired_names, on_finalize,
}
use vantiy_name_registry.Registry.Funds.{update_locked_fund_frame}
use vantiy_name_registry.Registry.Calls.{owner_at, new_period}
use vantiy_name_registry.Registry.Entries.{
  owner_at-insert_owner_self, owner_at-insert_owner_ne, owner_at-remove_owner_self,
  owner_at-remove_owner_ne,
}
use vantiy_name_registry.Registry.Transitions.{
  Transition, commit_made, name_claimed, reveal_lost, name_renewed, name_given_up, revealed_owner,
  renewed_owner, after_unregister, dispatch_preserves,
}
use vantiy_name_registry.Registry.Chain.{genesis, next_block, call, seal, Reach, start, next}

module _ (T : Config) where
  abbrev pub owner_id : Option (OwnerOf T) → Option T.AccountId
  owner_id none = none
  owner_id (some o) = some o.id

  -- What one event says of the owner of a name.
  abbrev pub heard : T.Name → EventOf T → Option T.AccountId → Option T.AccountId
  heard name (name_owned m who) o = ite (T.name_discrete m name) (some who) o
  heard name (name_freed m) o = ite (T.name_discrete m name) none o
  heard name (reveal_discredited m who) o = o
  heard name (commit_expired hash who) o = o

  -- What a list of events says, for a name that had the owner `o` before.
  pub replay : T.Name → Option T.AccountId → List (EventOf T) → Option T.AccountId
  replay name o [] = o
  replay name o (e ∷ es) = replay name (heard name e o) es

  replay-snoc :
      (name : T.Name) (o : Option T.AccountId) (es : List (EventOf T)) (e : EventOf T)
      → replay name o (es ++ e ∷ []) ≡ heard name e (replay name o es)
  unfolding replay
  replay-snoc name o [] e = refl
  replay-snoc name o (x ∷ es) e = replay-snoc name (heard name x o) es e

  -- The events of a state tell the owner of every name.
  abbrev pub IsReplayed : State T → Type 0
  IsReplayed s = (name : T.Name) → replay name none s.events ≡ owner_id (owner_at T name s)

  Replayed-of_eq :
      (s t : State T) → t.owners ≡ s.owners → t.events ≡ s.events → IsReplayed s → IsReplayed t
  Replayed-of_eq s t eo ee h name =
      ap (replay name none) ee ∙ h name ∙ sym (ap (λ m. owner_id (T.owners.get name m)) eo)

  Replayed-update_locked_fund :
      (id : T.AccountId) (s : State T) → IsReplayed s → IsReplayed (update_locked_fund T id s)
  Replayed-update_locked_fund id s h =
      let e = update_locked_fund_frame T id s in
      Replayed-of_eq s (update_locked_fund T id s) (ap (λ (x : State T). x.owners) e)
        (ap (λ (x : State T). x.events) e) h

  -- An event and a change of the owners that agree on every name.
  Replayed-event :
      (e : EventOf T) (s t : State T)
      → t.events ≡ s.events
      → ((name : T.Name)
          → heard name e (owner_id (owner_at T name s)) ≡ owner_id (owner_at T name t))
      → IsReplayed s
      → IsReplayed (deposit_event T e t)
  Replayed-event e s t ee says h name =
      ap (λ es. replay name none (es ++ e ∷ [])) ee
      ∙ replay-snoc name none s.events e
      ∙ ap (heard name e) (h name)
      ∙ says name

  Replayed-insert_owner_self :
      (m : T.Name) (o o' : OwnerOf T) (s : State T)
      → owner_at T m s ≡ some o
      → o'.id ≡ o.id
      → IsReplayed s
      → IsReplayed (insert_owner T m o' s)
  unfolding insert_owner
  Replayed-insert_owner_self m o o' s e same h name = h name ∙ elim (T.name_discrete m name) [
    | yes q ↦
        subst (λ n. owner_id (owner_at T n s) ≡ owner_id (owner_at T n (insert_owner T m o' s))) q
          (ap owner_id e
            ∙ ap some (sym same)
            ∙ sym (ap owner_id (owner_at-insert_owner_self T m o' s)))
    | no n ↦ sym (ap owner_id (owner_at-insert_owner_ne T m name o' s n))
  ]

  Replayed-insert_owner :
      (m : T.Name) (o : OwnerOf T) (s : State T)
      → IsReplayed s
      → IsReplayed (deposit_event T (name_owned m o.id) (insert_owner T m o s))
  unfolding insert_owner
  Replayed-insert_owner m o s h =
      Replayed-event (name_owned m o.id) s (insert_owner T m o s) refl says h
    where
      says :
          (name : T.Name)
          → heard name (name_owned m o.id) (owner_id (owner_at T name s))
            ≡ owner_id (owner_at T name (insert_owner T m o s))
      says name = elim (T.name_discrete m name) [
        | yes q ↦
            if_pos (T.name_discrete m name) q (some o.id) (owner_id (owner_at T name s))
            ∙ sym (
                ap owner_id (
                  subst (λ n. owner_at T n (insert_owner T m o s) ≡ some o) q
                    (owner_at-insert_owner_self T m o s)))
        | no n ↦
            if_neg (T.name_discrete m name) n (some o.id) (owner_id (owner_at T name s))
            ∙ sym (ap owner_id (owner_at-insert_owner_ne T m name o s n))
      ]

  -- A name that is freed, by its owner or at the end of its period.
  Replayed-after_unregister :
      (who : T.AccountId) (m : T.Name) (s : State T)
      → IsReplayed s
      → IsReplayed (after_unregister T who m s)
  unfolding remove_owner
  Replayed-after_unregister who m s h =
      let gone = remove_owner T m s in
      let frame = update_locked_fund_frame T who gone in
      Replayed-event (name_freed m) s (update_locked_fund T who gone)
        (ap (λ (x : State T). x.events) frame)
        (λ name. says name ∙ ap (λ (x : State T). owner_id (owner_at T name x)) (sym frame)) h
    where
      says :
          (name : T.Name)
          → heard name (name_freed m) (owner_id (owner_at T name s))
            ≡ owner_id (owner_at T name (remove_owner T m s))
      says name = elim (T.name_discrete m name) [
        | yes q ↦
            if_pos (T.name_discrete m name) q none (owner_id (owner_at T name s))
            ∙ sym (
                ap owner_id (
                  subst (λ n. owner_at T n (remove_owner T m s) ≡ none) q
                    (owner_at-remove_owner_self T m s)))
        | no n ↦
            if_neg (T.name_discrete m name) n none (owner_id (owner_at T name s))
            ∙ sym (ap owner_id (owner_at-remove_owner_ne T m name s n))
      ]

  Replayed-Transition :
      (who : T.AccountId) (q : Request T) (s t : State T)
      → Transition T who s t q
      → IsReplayed s
      → IsReplayed t
  unfolding insert_commit remove_commit
  Replayed-Transition who q s t (commit_made {hash} e) h = subst IsReplayed (sym e) (
      Replayed-update_locked_fund who (insert_commit T who hash (new_period T s) s)
        (Replayed-of_eq s (insert_commit T who hash (new_period T s) s) refl refl h))
  Replayed-Transition who q s t (name_claimed {name} {p} c d e) h =
      let taken = remove_commit T who (hash_of T who name) s in
      subst IsReplayed (sym e) (
        Replayed-insert_owner name (revealed_owner T who name p) taken
          (Replayed-of_eq s taken refl refl h))
  Replayed-Transition who q s t (reveal_lost {name} c d e) h =
      let taken = remove_commit T who (hash_of T who name) s in
      let settled = update_locked_fund T who taken in
      subst IsReplayed (sym e) (
        Replayed-event (reveal_discredited name who) settled settled refl (λ n. refl)
          (Replayed-update_locked_fund who taken (Replayed-of_eq s taken refl refl h)))
  Replayed-Transition who q s t (name_renewed {name} {o} c d e) h =
      subst IsReplayed (sym e) (Replayed-insert_owner_self name o (renewed_owner T o s) s c refl h)
  Replayed-Transition who q s t (name_given_up {name} c d e) h =
      subst IsReplayed (sym e) (Replayed-after_unregister who name s h)

  Replayed-expire_commits :
      (cs : List (T.AccountId × T.Hash)) (s : State T)
      → IsReplayed s
      → IsReplayed (expire_commits T cs s)
  unfolding expire_commits expire_commit remove_commit
  Replayed-expire_commits [] s h = h
  Replayed-expire_commits ((id, hash) ∷ cs) s h =
      let taken = remove_commit T id hash s in
      let settled = update_locked_fund T id taken in
      Replayed-expire_commits cs (expire_commit T (id, hash) s) (
        Replayed-event (commit_expired hash id) settled settled refl (λ n. refl)
          (Replayed-update_locked_fund id taken (Replayed-of_eq s taken refl refl h)))

  Replayed-free_names :
      (es : List (T.Name × OwnerOf T)) (s : State T) → IsReplayed s → IsReplayed (free_names T es s)
  unfolding free_names free_name
  Replayed-free_names [] s h = h
  Replayed-free_names ((m, o) ∷ es) s h =
      Replayed-free_names es (free_name T (m, o) s) (Replayed-after_unregister o.id m s h)

  Replayed-next_block : (s : State T) → IsReplayed s → IsReplayed (next_block T s)
  unfolding next_block on_finalize remove_expired_commits remove_expired_names
  Replayed-next_block s h =
      let now = s.block_number in
      let t = remove_expired_commits T now s in
      Replayed-of_eq (on_finalize T now s) (next_block T s) refl refl (
        Replayed-free_names (expired_names T now t) t
          (Replayed-expire_commits (expired_commits T now s) s h))

-- In every state that a chain reaches, replaying the events since its start tells the owner of every
-- name: the account of the last event that the name is owned, unless it was freed since, and no account
-- where there is no such event. So no name changes hands without an event, and no event lies.
pub Reach-replay :
    (T : Config) {s : State T}
    → Reach T s
    → (name : T.Name) → replay T name none s.events ≡ owner_id T (owner_at T name s)
unfolding replay genesis
Reach-replay T start name = sym (ap (owner_id T) (T.owners.get-empty name))
Reach-replay T (next {s} {t} r (call origin q e)) name =
    subst (IsReplayed T) (sym e)
      (dispatch_preserves T origin q s (IsReplayed T) (Reach-replay T r)
        (λ who u by step. Replayed-Transition T who q s u step (Reach-replay T r)))
      name
Reach-replay T (next {s} {t} r (seal e)) name =
    subst (IsReplayed T) (sym e) (Replayed-next_block T s (Reach-replay T r)) name
