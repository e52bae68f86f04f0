-- ===== src/Registry/Expiry/Names.antt =====
-- `remove_expired_names` of pallets/vanity-registry/src/lib.rs: which names are left, and what else
-- is left alone.
use mathlib.Core.Logic.Or
use mathlib.Core.List.{
  not-mem-nil, mem-cons_self, mem-cons_of_mem, eq-or-mem_of_mem-cons, mem-map_of_mem,
  exists_of_mem-map, mem-filter, append_assoc, append-nil,
}
use mathlib.Core.HLevel.{⊥_prop, hedberg}
use mathlib.Core.Logic.{∥∥₁_elim}
use vantiy_name_registry.Base.{
  ℕ, ◌≤◌, ◌≡◌, refl, sym, ap, subst, ◌∙◌, ◌≢◌, inl, inr, Option, none, some, List, [], ◌∷◌, ◌++◌,
  map, Mem, arith, leb, if◌then◌else◌, ℕ_discrete, Option-cases, Bool-cases,
}
use vantiy_name_registry.Registry.{
  Config, OwnerOf, EventOf, name_freed, State, remove_owner, expired_names, free_name, free_names,
  remove_expired_names, is_expired,
}
use vantiy_name_registry.Registry.Funds.{update_locked_fund_frame}
use vantiy_name_registry.Registry.Calls.{owner_at}

-- What is left of the owner of a name at the end of block `now`.
abbrev pub still_owned : (T : Config) → ℕ → Option (OwnerOf T) → Option (OwnerOf T)
still_owned T now none = none
still_owned T now (some o) = if leb o.lock_period.end now then none else some o

module _ (T : Config) where
  abbrev Entry : Type 0
  Entry = T.Name × OwnerOf T

  owner_at-free_name :
      (e : Entry) (name : T.Name) (s : State T)
      → owner_at T name (free_name T e s) ≡ owner_at T name (remove_owner T e.0 s)
  unfolding free_name
  owner_at-free_name e name s =
      ap (λ (x : State T). T.owners.get name x.owners)
        (update_locked_fund_frame T e.1.id (remove_owner T e.0 s))

  owner_at-free_name_self : (e : Entry) (s : State T) → owner_at T e.0 (free_name T e s) ≡ none
  unfolding remove_owner
  owner_at-free_name_self e s = owner_at-free_name e e.0 s ∙ T.owners.get-remove_self e.0 s.owners

  owner_at-free_name_ne :
      (e : Entry) (name : T.Name) (s : State T)
      → e.0 ≢ name
      → owner_at T name (free_name T e s) ≡ owner_at T name s
  unfolding remove_owner
  owner_at-free_name_ne e name s n =
      owner_at-free_name e name s ∙ T.owners.get-remove_ne e.0 name s.owners n

  owner_at-free_names_kept :
      (es : List Entry) (name : T.Name) (s : State T)
      → ¬ Mem name (map (λ e. e.0) es)
      → owner_at T name (free_names T es s) ≡ owner_at T name s
  unfolding free_names
  owner_at-free_names_kept [] name s n = refl
  owner_at-free_names_kept (e ∷ es) name s n =
      owner_at-free_names_kept es name (free_name T e s) (λ m. n (mem-cons_of_mem e.0 m))
      ∙ owner_at-free_name_ne e name s (λ q. n (rw q mem-cons_self))

  owner_at-free_names-none :
      (es : List Entry) (name : T.Name) (s : State T)
      → owner_at T name s ≡ none
      → owner_at T name (free_names T es s) ≡ none
  unfolding free_names
  owner_at-free_names-none [] name s h = h
  owner_at-free_names-none (e ∷ es) name s h =
      owner_at-free_names-none es name (free_name T e s) (elim (T.name_discrete e.0 name) [
        | yes q ↦ subst (λ n. owner_at T n (free_name T e s) ≡ none) q (owner_at-free_name_self e s)
        | no n ↦ owner_at-free_name_ne e name s n ∙ h
      ])

  owner_set : IsSet (Option (OwnerOf T))
  owner_set = hlevel (T.account_discrete, T.hash_discrete, ℕ_discrete, hedberg)

  owner_at-free_names_gone :
      (es : List Entry) (name : T.Name) (s : State T)
      → Mem name (map (λ e. e.0) es)
      → owner_at T name (free_names T es s) ≡ none
  unfolding free_names
  owner_at-free_names_gone [] name s m = absurd (not-mem-nil m)
  owner_at-free_names_gone (e ∷ es) name s m =
      Or.elim (owner_set _ _) (eq-or-mem_of_mem-cons m)
        (λ q. owner_at-free_names-none es name (free_name T e s) (
          subst (λ n. owner_at T n (free_name T e s) ≡ none) (sym q) (owner_at-free_name_self e s)))
        (λ r. owner_at-free_names_gone es name (free_name T e s) r)

  mem-expired_names :
      (now : ℕ) (name : T.Name) (o : OwnerOf T) (s : State T)
      → owner_at T name s ≡ some o
      → o.lock_period.end ≤ now
      → Mem name (map (λ e. e.0) (expired_names T now s))
  unfolding expired_names
  mem-expired_names now name o s h le =
      mem-map_of_mem (λ (x : Entry). x.0)
        ((mem-filter (λ x. is_expired T now x.1.lock_period)).1
          ((T.owners.mem-iter name o s.owners).1 h, le))

  end-le_of_owner :
      (now : ℕ) (o q : OwnerOf T)
      → ◌≡◌ {A = Option (OwnerOf T)} (some o) (some q)
      → o.lock_period.end ≤ now
      → q.lock_period.end ≤ now
  end-le_of_owner now o q e h = ground arith

  not-mem-expired_names :
      (now : ℕ) (name : T.Name) (o : OwnerOf T) (s : State T)
      → owner_at T name s ≡ some o
      → ¬ (o.lock_period.end ≤ now)
      → ¬ Mem name (map (λ e. e.0) (expired_names T now s))
  unfolding expired_names
  not-mem-expired_names now name o s h late m = ∥∥₁_elim (exists_of_mem-map m) ⊥_prop (λ w.
      let f = (mem-filter (λ x. is_expired T now x.1.lock_period)).0 w.1 in
      let at = (T.owners.mem-iter w.0.0 w.0.1 s.owners).0 f.0 in
      let found : owner_at T name s ≡ some w.0.1 =
        subst (λ n. owner_at T n s ≡ some w.0.1) w.2 at in
      late (end-le_of_owner now w.0.1 o (sym found ∙ h) f.1))

  -- At the end of block `now` exactly the names whose period is not over are still owned.
  pub owner_at-remove_expired_names :
      (now : ℕ) (name : T.Name) (s : State T)
      → owner_at T name (remove_expired_names T now s) ≡ still_owned T now (owner_at T name s)
  unfolding remove_expired_names
  owner_at-remove_expired_names now name s = elim (Option-cases (owner_at T name s)) [
    | inl e ↦
        owner_at-free_names-none (expired_names T now s) name s e ∙ ap (still_owned T now) (sym e)
    | inr (o, e) ↦ still o e ∙ ap (still_owned T now) (sym e)
  ]
    where
      still :
          (o : OwnerOf T)
          → owner_at T name s ≡ some o
          → owner_at T name (free_names T (expired_names T now s) s) ≡ still_owned T now (some o)
      still o e = elim (Bool-cases (leb o.lock_period.end now)) [
        | inl over ↦ rw over (
            owner_at-free_names_gone (expired_names T now s) name s
              (mem-expired_names now name o s e (ground arith)))
        | inr open_still ↦ rw open_still (
            owner_at-free_names_kept (expired_names T now s) name s
              (not-mem-expired_names now name o s e (λ l. ground arith))
            ∙ e)
      ]

  events-free_names :
      (es : List Entry) (s : State T)
      → (free_names T es s).events ≡ s.events ++ map (λ e. name_freed e.0) es
  unfolding free_names free_name remove_owner
  events-free_names [] s = sym (append-nil s.events)
  events-free_names (e ∷ es) s =
      events-free_names es (free_name T e s)
      ∙ ap (λ (l : List (EventOf T)). (l ++ name_freed e.0 ∷ []) ++ map (λ x. name_freed x.0) es)
          (ap (λ (x : State T). x.events)
            (update_locked_fund_frame T e.1.id (remove_owner T e.0 s)))
      ∙ append_assoc s.events (name_freed e.0 ∷ []) (map (λ x. name_freed x.0) es)

  pub events-remove_expired_names :
      (now : ℕ) (s : State T)
      → (remove_expired_names T now s).events
        ≡ s.events ++ map (λ e. name_freed e.0) (expired_names T now s)
  unfolding remove_expired_names
  events-remove_expired_names now s = events-free_names (expired_names T now s) s

  pub lock_periods-free_name :
      (e : Entry) (s : State T) → (free_name T e s).lock_periods ≡ s.lock_periods
  unfolding free_name remove_owner
  lock_periods-free_name e s =
      ap (λ (x : State T). x.lock_periods)
        (update_locked_fund_frame T e.1.id (remove_owner T e.0 s))

  pub lock_periods-free_names :
      (es : List Entry) (s : State T) → (free_names T es s).lock_periods ≡ s.lock_periods
  unfolding free_names
  lock_periods-free_names [] s = refl
  lock_periods-free_names (e ∷ es) s =
      lock_periods-free_names es (free_name T e s) ∙ lock_periods-free_name e s

  pub block_number-free_names :
      (es : List Entry) (s : State T) → (free_names T es s).block_number ≡ s.block_number
  unfolding free_names free_name remove_owner
  block_number-free_names [] s = refl
  block_number-free_names (e ∷ es) s =
      block_number-free_names es (free_name T e s)
      ∙ ap (λ (x : State T). x.block_number)
          (update_locked_fund_frame T e.1.id (remove_owner T e.0 s))
