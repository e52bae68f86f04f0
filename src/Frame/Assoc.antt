-- ===== src/Frame/Assoc.antt =====
-- The storage maps as association lists, newest entry first: the interfaces of Frame/Storage.antt
-- can be met, and what is built on them runs.
use mathlib.Core.HLevel.{⊥_prop}
use mathlib.Core.Logic.Or
use mathlib.Core.List.{
  not-mem-nil, mem-cons_self, mem-cons_of_mem, eq-or-mem_of_mem-cons, Nodup-cons, Nodup-nil,
  mem-map_of_mem, Mem-prop,
}
use vantiy_name_registry.Base.{
  ◌≡◌, refl, sym, ◌∙◌, ◌≢◌, ◌↔◌, Option, none, some, List, [], ◌∷◌, map, Mem, Nodup, ite, arith,
}

module _ {K V : Type 0} where
  abbrev pub keys : List (K × V) → List K
  keys = map (λ e. e.0)

module _ {K V : Type 0} (dec : Discrete K) where
  unfoldable pub lookup : K → List (K × V) → Option V
  lookup k [] = none
  lookup k (e ∷ l) = ite (dec e.0 k) (some e.1) (lookup k l)

  unfoldable pub without : K → List (K × V) → List (K × V)
  without k [] = []
  without k (e ∷ l) = let rest = without k l in ite (dec e.0 k) rest (e ∷ rest)

  -- The newest entry of each key.
  unfoldable pub entries : List (K × V) → List (K × V)
  unfolding without
  entries [] = []
  entries (e ∷ l) = e ∷ without e.0 (entries l)

  pub lookup-cons_self : (k : K) (v : V) (l : List (K × V)) → lookup k ((k, v) ∷ l) ≡ some v
  unfolding lookup
  lookup-cons_self k v l = ground arith

  pub lookup-cons_ne :
      (k j : K) (v : V) (l : List (K × V)) → k ≢ j → lookup j ((k, v) ∷ l) ≡ lookup j l
  unfolding lookup
  lookup-cons_ne k j v l h = ground arith

  pub lookup-without_self : (k : K) (l : List (K × V)) → lookup k (without k l) ≡ none
  unfolding lookup without
  lookup-without_self k [] = refl
  lookup-without_self k (e ∷ l) = ground (arith, lookup-without_self k l)

  pub lookup-without_ne : (k j : K) (l : List (K × V)) → k ≢ j → lookup j (without k l) ≡ lookup j l
  unfolding lookup without
  lookup-without_ne k j [] h = refl
  lookup-without_ne k j (e ∷ l) h = ground (arith, lookup-without_ne k j l h)

  lookup-entries : (k : K) (l : List (K × V)) → lookup k (entries l) ≡ lookup k l
  unfolding lookup entries
  lookup-entries k [] = refl
  lookup-entries k (e ∷ l) = ground (arith, lookup-without_ne e.0 k (entries l), lookup-entries k l)

  without-cons_eq :
      (k : K) (e : K × V) (l : List (K × V)) → e.0 ≡ k → without k (e ∷ l) ≡ without k l
  unfolding without
  without-cons_eq k e l p = ground arith

  without-cons_ne :
      (k : K) (e : K × V) (l : List (K × V)) → e.0 ≢ k → without k (e ∷ l) ≡ e ∷ without k l
  unfolding without
  without-cons_ne k e l p = ground arith

  mem-without : (k j : K) (l : List (K × V)) → Mem j (keys (without k l)) → Mem j (keys l)
  unfolding without
  mem-without k j [] m = m
  mem-without k j (e ∷ l) m = elim (dec e.0 k) [
    | yes p ↦ mem-cons_of_mem e.0 (mem-without k j l (rw (without-cons_eq k e l p) at m))
    | no p ↦
        Or.elim Mem-prop (eq-or-mem_of_mem-cons (rw (without-cons_ne k e l p) at m))
          (λ q. rw q mem-cons_self) (λ r. mem-cons_of_mem e.0 (mem-without k j l r))
  ]

  not-mem-without : (k : K) (l : List (K × V)) → ¬ Mem k (keys (without k l))
  unfolding without
  not-mem-without k [] m = not-mem-nil m
  not-mem-without k (e ∷ l) m = elim (dec e.0 k) [
    | yes p ↦ not-mem-without k l (rw (without-cons_eq k e l p) at m)
    | no p ↦
        Or.elim ⊥_prop (eq-or-mem_of_mem-cons (rw (without-cons_ne k e l p) at m)) (λ q. p (sym q))
          (not-mem-without k l)
  ]

  Nodup-without : (k : K) (l : List (K × V)) → Nodup (keys l) → Nodup (keys (without k l))
  unfolding without
  Nodup-without k [] d = d
  Nodup-without k (e ∷ l) d = elim (dec e.0 k) [
    | yes p ↦ rw (without-cons_eq k e l p) (Nodup-without k l (Nodup-cons.0 d).1)
    | no p ↦ rw (without-cons_ne k e l p) (
        Nodup-cons.1
          (λ m. (Nodup-cons.0 d).0 (mem-without k e.0 l m), Nodup-without k l (Nodup-cons.0 d).1))
  ]

  pub Nodup-entries : (l : List (K × V)) → Nodup (keys (entries l))
  unfolding entries
  Nodup-entries [] = Nodup-nil
  Nodup-entries (e ∷ l) =
      Nodup-cons.1
        (not-mem-without e.0 (entries l), Nodup-without e.0 (entries l) (Nodup-entries l))

  mem_of_lookup : (k : K) (v : V) (l : List (K × V)) → lookup k l ≡ some v → Mem (k, v) l
  unfolding lookup
  mem_of_lookup k v [] h = cc
  mem_of_lookup k v (e ∷ l) h = elim (dec e.0 k) [
    | yes p ↦ rw (head_eq p) mem-cons_self
    | no p ↦ mem-cons_of_mem e (mem_of_lookup k v l (ground arith))
  ]
    where
      head_eq : e.0 ≡ k → ◌≡◌ {A = K × V} (k, v) e
      head_eq p = ground arith

  lookup_of_mem :
      IsSet V
      → (k : K) (v : V) (l : List (K × V)) → Nodup (keys l)
      → Mem (k, v) l
      → lookup k l ≡ some v
  unfolding lookup
  lookup_of_mem V_set k v [] d m = absurd (not-mem-nil m)
  lookup_of_mem V_set k v (e ∷ l) d m =
      Or.elim (hlevel V_set) (eq-or-mem_of_mem-cons m) (λ q. rw (← q) (lookup-cons_self k v l))
        (λ r. ground (
          arith,
          lookup_of_mem V_set k v l (Nodup-cons.0 d).1 r,
          λ (p : e.0 ≡ k). (Nodup-cons.0 d).0 (rw p (mem-map_of_mem (λ (x : K × V). x.0) r)),
        ))

  pub mem-entries :
      IsSet V → (k : K) (v : V) (l : List (K × V)) → Mem (k, v) (entries l) ↔ (lookup k l ≡ some v)
  mem-entries V_set k v l = (
    λ m. sym (lookup-entries k l) ∙ lookup_of_mem V_set k v (entries l) (Nodup-entries l) m,
    λ h. mem_of_lookup k v (entries l) (lookup-entries k l ∙ h),
  )
