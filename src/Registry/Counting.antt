-- ===== src/Registry/Counting.antt =====
-- How many commits an account has, `num_of_commits` of pallets/vanity-registry/src/lib.rs, compared
-- between two states by the keys that they hold.
use mathlib.Core.Logic.{∥∥₁_elim}
use mathlib.Core.HLevel.{¬_prop}
use mathlib.Core.Logic.Or
use mathlib.Core.List.{
  exists_of_mem-map, mem-map_of_mem, eq-or-mem_of_mem-cons, Nodup-cons, Mem-prop, mem-cons_self,
  mem-cons_of_mem,
}
use vantiy_name_registry.Base.{
  suc, ◌≤◌, ◌≡◌, sym, ◌∙◌, ◌≢◌, inl, inr, Option, none, List, [], ◌∷◌, map, Mem, arith, length,
  length-map, length-le_of_subset, Option-cases,
}
use vantiy_name_registry.Registry.{Config, LockPeriod, State, num_of_commits}

module _ (T : Config) where
  -- The commit of `id` under `h`, if there is one.
  abbrev pub commit_at : T.AccountId → T.Hash → State T → Option LockPeriod
  commit_at id h s = T.lock_periods.get id h s.lock_periods

  abbrev hashes_of : T.AccountId → State T → List T.Hash
  hashes_of id s = map (λ e. e.0) (T.lock_periods.iter_prefix id s.lock_periods)

  num_of_commits-hashes :
      (id : T.AccountId) (s : State T) → num_of_commits T id s ≡ length (hashes_of id s)
  unfolding num_of_commits
  num_of_commits-hashes id s = rw (T.lock_periods.iter_prefix_values-eq id s.lock_periods) (
      length-map (λ e. e.1) (T.lock_periods.iter_prefix id s.lock_periods)
      ∙ sym (length-map (λ e. e.0) (T.lock_periods.iter_prefix id s.lock_periods)))

  mem_of_commit_at :
      (id : T.AccountId) (h : T.Hash) (s : State T)
      → commit_at id h s ≢ none
      → Mem h (hashes_of id s)
  mem_of_commit_at id h s c = elim (Option-cases (commit_at id h s)) [
    | inl e ↦ absurd (c e)
    | inr (p, e) ↦
        mem-map_of_mem (λ (x : T.Hash × LockPeriod). x.0)
          ((T.lock_periods.mem-iter_prefix id h p s.lock_periods).1 e)
  ]

  commit_at_of_mem :
      (id : T.AccountId) (h : T.Hash) (s : State T)
      → Mem h (hashes_of id s)
      → commit_at id h s ≢ none
  commit_at_of_mem id h s m =
      ∥∥₁_elim (exists_of_mem-map m) ¬_prop
        (λ w e. cc ((T.lock_periods.mem-iter_prefix id w.0.0 w.0.1 s.lock_periods).0 w.1, w.2, e))

  -- A state that has every commit of `id` that another has, has as many at least.
  pub num_of_commits_mono :
      (id : T.AccountId) (s t : State T)
      → ((h : T.Hash) → commit_at id h s ≢ none → commit_at id h t ≢ none)
      → num_of_commits T id s ≤ num_of_commits T id t
  num_of_commits_mono id s t keep =
      rw (num_of_commits-hashes id s, num_of_commits-hashes id t)
        (length-le_of_subset (hashes_of id s) (hashes_of id t)
          (T.lock_periods.Nodup-iter_prefix id s.lock_periods)
          (λ h m. mem_of_commit_at id h t (keep h (commit_at_of_mem id h s m))))

  -- An account without commits has none to count.
  pub num_of_commits-none :
      (id : T.AccountId) (s : State T)
      → ((h : T.Hash) → commit_at id h s ≡ none)
      → num_of_commits T id s ≡ 0
  num_of_commits-none id s empty = rw (num_of_commits-hashes id s) (
      omega (
        arith,
        length-le_of_subset (hashes_of id s) [] (T.lock_periods.Nodup-iter_prefix id s.lock_periods)
            (λ h m. absurd (commit_at_of_mem id h s m (empty h))),
      ))

  pub num_of_commits-eq :
      (id : T.AccountId) (s t : State T)
      → ((h : T.Hash) → commit_at id h t ≡ commit_at id h s)
      → num_of_commits T id t ≡ num_of_commits T id s
  num_of_commits-eq id s t same = omega (
    arith,
    num_of_commits_mono id s t (λ h c e. c (sym (same h) ∙ e)),
    num_of_commits_mono id t s (λ h c e. c (same h ∙ e)),
  )

  -- Apart from the commit under `h₀`, the second state has no commit that the first has not.
  pub num_of_commits-le_suc :
      (id : T.AccountId) (h₀ : T.Hash) (s t : State T)
      → ((h : T.Hash) → h ≢ h₀ → commit_at id h t ≢ none → commit_at id h s ≢ none)
      → num_of_commits T id t ≤ suc (num_of_commits T id s)
  num_of_commits-le_suc id h₀ s t keep =
      rw (num_of_commits-hashes id s, num_of_commits-hashes id t)
        (length-le_of_subset (hashes_of id t) (h₀ ∷ hashes_of id s)
          (T.lock_periods.Nodup-iter_prefix id t.lock_periods)
          (λ h m. elim (T.hash_discrete h h₀) [
            | yes e ↦ rw e mem-cons_self
            | no n ↦
                mem-cons_of_mem h₀ (mem_of_commit_at id h s (keep h n (commit_at_of_mem id h t m)))
          ]))

  -- The second state has a commit under `h₀` more.
  pub suc-num_of_commits-le :
      (id : T.AccountId) (h₀ : T.Hash) (s t : State T)
      → commit_at id h₀ s ≡ none
      → commit_at id h₀ t ≢ none
      → ((h : T.Hash) → commit_at id h s ≢ none → commit_at id h t ≢ none)
      → suc (num_of_commits T id s) ≤ num_of_commits T id t
  suc-num_of_commits-le id h₀ s t absent present keep =
      rw (num_of_commits-hashes id s, num_of_commits-hashes id t)
        (length-le_of_subset (h₀ ∷ hashes_of id s) (hashes_of id t)
          (Nodup-cons.1 (
            λ m. commit_at_of_mem id h₀ s m absent,
            T.lock_periods.Nodup-iter_prefix id s.lock_periods,
          ))
          (λ h m.
            Or.elim Mem-prop (eq-or-mem_of_mem-cons m)
              (λ e. rw e (mem_of_commit_at id h₀ t present))
              (λ r. mem_of_commit_at id h t (keep h (commit_at_of_mem id h s r)))))
