-- ===== src/Frame/Maps.antt =====
-- The interfaces of Frame/Storage.antt, filled by association lists.
use mathlib.Core.Logic.{∥∥₁_elim}
use mathlib.Core.Logic.Or
use mathlib.Core.List.{
  not-mem-nil, mem-cons_self, mem-cons_of_mem, eq-or-mem_of_mem-cons, mem-map_of_mem,
  exists_of_mem-map, Nodup-cons, Nodup-nil, Mem-prop,
}
use vantiy_name_registry.Base.{
  ◌≡◌, refl, sym, ap, subst, ◌≢◌, ◌↔◌, Option, none, some, List, [], ◌∷◌, map, Mem, Nodup, ite,
  arith,
}
use vantiy_name_registry.Frame.Storage.{StorageMap, StorageDoubleMap}
use vantiy_name_registry.Frame.Assoc.{
  keys, lookup, without, entries, lookup-cons_self, lookup-cons_ne, lookup-without_self,
  lookup-without_ne, Nodup-entries, mem-entries,
}

module _ {K V : Type 0} (dec : Discrete K) (V_set : IsSet V) where
  unfoldable pub assoc_map : StorageMap K V
  unfolding lookup without entries
  assoc_map = record {
    Store = List (K × V);
    empty = [];
    get = lookup dec;
    insert = λ k v l. (k, v) ∷ l;
    remove = without dec;
    iter = entries dec;
    get-empty = λ k. refl;
    get-insert_self = lookup-cons_self dec;
    get-insert_ne = lookup-cons_ne dec;
    get-remove_self = lookup-without_self dec;
    get-remove_ne = lookup-without_ne dec;
    mem-iter = mem-entries dec V_set;
    Nodup-iter = Nodup-entries dec;
  }

module _ {A B : Type 0} (dec_a : Discrete A) (dec_b : Discrete B) where
  unfoldable pub pair_discrete : Discrete (A × B)
  pair_discrete x y = elim (dec_a x.0 y.0) [
    | yes p ↦ elim (dec_b x.1 y.1) [
      | yes q ↦ yes (λ i. (p i, q i))
      | no n ↦ no (λ e. n (ap (λ (z : A × B). z.1) e))
    ]
    | no n ↦ no (λ e. n (ap (λ (z : A × B). z.0) e))
  ]

abbrev Flat : Type 0 → Type 0 → Type 0 → Type 0
Flat A B V = List ((A × B) × V)

module _ {A B V : Type 0} where
  abbrev flatten_entry : (A × B) × V → A × B × V
  flatten_entry e = (e.0.0, e.0.1, e.1)

  abbrev group_entry : A × B × V → (A × B) × V
  group_entry e = ((e.0, e.1), e.2)

  pub mem-flatten :
      (a : A) (b : B) (v : V) (l : Flat A B V)
      → Mem {A = A × B × V} (a, b, v) (map flatten_entry l) ↔ Mem {A = (A × B) × V} ((a, b), v) l
  mem-flatten a b v l = (
    λ m.
        ∥∥₁_elim (exists_of_mem-map m) Mem-prop
          (λ w. subst (λ x. Mem x l) (ap group_entry w.2) w.1),
    λ m. mem-map_of_mem flatten_entry m,
  )

  pub keys-flatten :
      (l : Flat A B V) → map {B = A × B} (λ e. (e.0, e.1)) (map flatten_entry l) ≡ keys l
  keys-flatten [] = refl
  keys-flatten (e ∷ l) = ap (◌∷◌ e.0) (keys-flatten l)

module _ {A B V : Type 0} (dec_a : Discrete A) where
  -- The entries below one first key.
  unfoldable pub prefix : A → Flat A B V → List (B × V)
  prefix a [] = []
  prefix a (e ∷ l) = let rest = prefix a l in ite (dec_a e.0.0 a) ((e.0.1, e.1) ∷ rest) rest

  pub prefix-cons_eq :
      (a : A) (e : (A × B) × V) (l : Flat A B V)
      → e.0.0 ≡ a
      → prefix a (e ∷ l) ≡ (e.0.1, e.1) ∷ prefix a l
  unfolding prefix
  prefix-cons_eq a e l p = ground arith

  pub prefix-cons_ne :
      (a : A) (e : (A × B) × V) (l : Flat A B V) → e.0.0 ≢ a → prefix a (e ∷ l) ≡ prefix a l
  unfolding prefix
  prefix-cons_ne a e l p = ground arith

  pub mem_of_mem-prefix :
      (a : A) (b : B) (v : V) (l : Flat A B V)
      → Mem {A = B × V} (b, v) (prefix a l)
      → Mem {A = (A × B) × V} ((a, b), v) l
  unfolding prefix
  mem_of_mem-prefix a b v [] m = absurd (not-mem-nil m)
  mem_of_mem-prefix a b v (e ∷ l) m = elim (dec_a e.0.0 a) [
    | yes p ↦
        Or.elim Mem-prop (eq-or-mem_of_mem-cons (rw (prefix-cons_eq a e l p) at m))
          (λ q. subst (λ x. Mem x (e ∷ l)) (ends p q) mem-cons_self)
          (λ r. mem-cons_of_mem e (mem_of_mem-prefix a b v l r))
    | no p ↦ mem-cons_of_mem e (mem_of_mem-prefix a b v l (rw (prefix-cons_ne a e l p) at m))
  ]
    where
      ends : e.0.0 ≡ a → ◌≡◌ {A = B × V} (b, v) (e.0.1, e.1) → ◌≡◌ {A = (A × B) × V} e ((a, b), v)
      ends p q = ground arith

  pub mem-prefix_of_mem :
      (a : A) (b : B) (v : V) (l : Flat A B V)
      → Mem {A = (A × B) × V} ((a, b), v) l
      → Mem {A = B × V} (b, v) (prefix a l)
  unfolding prefix
  mem-prefix_of_mem a b v [] m = absurd (not-mem-nil m)
  mem-prefix_of_mem a b v (e ∷ l) m =
      Or.elim Mem-prop (eq-or-mem_of_mem-cons m)
        (λ q. rw (← q) (rw (prefix-cons_eq a ((a, b), v) l refl) mem-cons_self))
        (λ r. elim (dec_a e.0.0 a) [
          | yes p ↦ rw (prefix-cons_eq a e l p) (mem-cons_of_mem _ (mem-prefix_of_mem a b v l r))
          | no p ↦ rw (prefix-cons_ne a e l p) (mem-prefix_of_mem a b v l r)
        ])

  mem_of_mem-prefix_keys :
      (a : A) (b : B) (l : Flat A B V) → Mem b (keys (prefix a l)) → Mem {A = A × B} (a, b) (keys l)
  mem_of_mem-prefix_keys a b l m = ∥∥₁_elim (exists_of_mem-map m) Mem-prop (λ w.
      subst (λ x. Mem {A = A × B} (a, x) (keys l)) w.2
        (mem-map_of_mem (λ (x : (A × B) × V). x.0) (mem_of_mem-prefix a w.0.0 w.0.1 l w.1)))

  pub Nodup-prefix : (a : A) (l : Flat A B V) → Nodup (keys l) → Nodup (keys (prefix a l))
  unfolding prefix
  Nodup-prefix a [] d = Nodup-nil
  Nodup-prefix a (e ∷ l) d = elim (dec_a e.0.0 a) [
    | yes p ↦ rw (prefix-cons_eq a e l p) (
        Nodup-cons.1 (
          λ m. (Nodup-cons.0 d).0 (
              subst (λ x. Mem {A = A × B} (x, e.0.1) (keys l)) (sym p)
                (mem_of_mem-prefix_keys a e.0.1 l m)),
          Nodup-prefix a l (Nodup-cons.0 d).1,
        ))
    | no p ↦ rw (prefix-cons_ne a e l p) (Nodup-prefix a l (Nodup-cons.0 d).1)
  ]

module _ {A B V : Type 0} (dec_a : Discrete A) (dec_b : Discrete B) (V_set : IsSet V) where
  abbrev pair : Discrete (A × B)
  pair = pair_discrete dec_a dec_b

  -- `take` on the list: a read, and a removal where there is something to remove.
  unfoldable pub take_entry : (a : A) (b : B) → Flat A B V → Option V × Flat A B V
  take_entry a b l =
      let found = lookup pair (a, b) l in
      elim found [ none ↦ (none, l) | some v ↦ (some v, without pair (a, b) l) ]

  pub take_entry-none :
      (a : A) (b : B) (l : Flat A B V) → lookup pair (a, b) l ≡ none → take_entry a b l ≡ (none, l)
  unfolding take_entry
  take_entry-none a b l h = rw (h, take_entry)

  pub take_entry-some :
      (a : A) (b : B) (v : V) (l : Flat A B V)
      → lookup pair (a, b) l ≡ some v
      → take_entry a b l ≡ (some v, without pair (a, b) l)
  unfolding take_entry
  take_entry-some a b v l h = rw (h, take_entry)

  unfoldable pub assoc_double_map : StorageDoubleMap A B V
  unfolding lookup without entries pair_discrete take_entry prefix
  assoc_double_map = record {
    Store = Flat A B V;
    empty = [];
    get = λ a b. lookup pair (a, b);
    insert = λ a b v l. ((a, b), v) ∷ l;
    remove = λ a b. without pair (a, b);
    take = take_entry;
    iter = λ l. map flatten_entry (entries pair l);
    iter_prefix = λ a l. prefix dec_a a (entries pair l);
    iter_prefix_values = λ a l. map (λ e. e.1) (prefix dec_a a (entries pair l));
    get-empty = λ a b. refl;
    get-insert_self = λ a b. lookup-cons_self pair (a, b);
    get-insert_ne = λ a c b d. lookup-cons_ne pair (a, b) (c, d);
    get-remove_self = λ a b. lookup-without_self pair (a, b);
    get-remove_ne = λ a c b d. lookup-without_ne pair (a, b) (c, d);
    take_none = take_entry-none;
    take_some = take_entry-some;
    mem-iter = λ a b v l. (
      λ m. (mem-entries pair V_set (a, b) v l).0 ((mem-flatten a b v (entries pair l)).0 m),
      λ h. (mem-flatten a b v (entries pair l)).1 ((mem-entries pair V_set (a, b) v l).1 h),
    );
    Nodup-iter = λ l. subst Nodup (sym (keys-flatten (entries pair l))) (Nodup-entries pair l);
    mem-iter_prefix = λ a b v l. (
      λ m. (mem-entries pair V_set (a, b) v l).0 (mem_of_mem-prefix dec_a a b v (entries pair l) m),
      λ h. mem-prefix_of_mem dec_a a b v (entries pair l) ((mem-entries pair V_set (a, b) v l).1 h),
    );
    Nodup-iter_prefix = λ a l. Nodup-prefix dec_a a (entries pair l) (Nodup-entries pair l);
    iter_prefix_values-eq = λ a l. refl;
  }
