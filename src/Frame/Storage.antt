-- ===== src/Frame/Storage.antt =====
-- `StorageMap` and `StorageDoubleMap` of frame_support: the operations that the pallet calls, with
-- their documented behaviour. The order of an iteration is left open.
use vantiy_name_registry.Base.{◌≡◌, ◌≢◌, ◌↔◌, Option, none, some, List, map, Mem, Nodup}

pub record StorageMap (K V : Type 0) : Type 1 where
  pub Store : Type 0
  pub empty : Store
  pub get : K → Store → Option V
  pub insert : K → V → Store → Store
  pub remove : K → Store → Store
  pub iter : Store → List (K × V)
  pub get-empty : (k : K) → get k empty ≡ none
  pub get-insert_self : (k : K) (v : V) (s : Store) → get k (insert k v s) ≡ some v
  pub get-insert_ne : (k j : K) (v : V) (s : Store) → k ≢ j → get j (insert k v s) ≡ get j s
  pub get-remove_self : (k : K) (s : Store) → get k (remove k s) ≡ none
  pub get-remove_ne : (k j : K) (s : Store) → k ≢ j → get j (remove k s) ≡ get j s
  -- An iteration yields the entries of the map, and no key twice.
  pub mem-iter : (k : K) (v : V) (s : Store) → Mem (k, v) (iter s) ↔ (get k s ≡ some v)
  pub Nodup-iter : (s : Store) → Nodup (map (λ e. e.0) (iter s))

pub record StorageDoubleMap (K₁ K₂ V : Type 0) : Type 1 where
  pub Store : Type 0
  pub empty : Store
  pub get : K₁ → K₂ → Store → Option V
  pub insert : K₁ → K₂ → V → Store → Store
  pub remove : K₁ → K₂ → Store → Store
  pub take : K₁ → K₂ → Store → Option V × Store
  pub iter : Store → List (K₁ × K₂ × V)
  pub iter_prefix : K₁ → Store → List (K₂ × V)
  pub iter_prefix_values : K₁ → Store → List V
  pub get-empty : (a : K₁) (b : K₂) → get a b empty ≡ none
  pub get-insert_self : (a : K₁) (b : K₂) (v : V) (s : Store) → get a b (insert a b v s) ≡ some v
  pub get-insert_ne :
      (a c : K₁) (b d : K₂) (v : V) (s : Store)
      → ◌≢◌ {A = K₁ × K₂} (a, b) (c, d)
      → get c d (insert a b v s) ≡ get c d s
  pub get-remove_self : (a : K₁) (b : K₂) (s : Store) → get a b (remove a b s) ≡ none
  pub get-remove_ne :
      (a c : K₁) (b d : K₂) (s : Store)
      → ◌≢◌ {A = K₁ × K₂} (a, b) (c, d)
      → get c d (remove a b s) ≡ get c d s
  -- `take` is a read, and a removal where there is something to remove.
  pub take_none : (a : K₁) (b : K₂) (s : Store) → get a b s ≡ none → take a b s ≡ (none, s)
  pub take_some :
      (a : K₁) (b : K₂) (v : V) (s : Store)
      → get a b s ≡ some v
      → take a b s ≡ (some v, remove a b s)
  pub mem-iter :
      (a : K₁) (b : K₂) (v : V) (s : Store) → Mem (a, b, v) (iter s) ↔ (get a b s ≡ some v)
  pub Nodup-iter : (s : Store) → Nodup {A = K₁ × K₂} (map (λ e. (e.0, e.1)) (iter s))
  -- The entries below one first key, and no second key twice.
  pub mem-iter_prefix :
      (a : K₁) (b : K₂) (v : V) (s : Store) → Mem (b, v) (iter_prefix a s) ↔ (get a b s ≡ some v)
  pub Nodup-iter_prefix : (a : K₁) (s : Store) → Nodup (map (λ e. e.0) (iter_prefix a s))
  pub iter_prefix_values-eq :
      (a : K₁) (s : Store) → iter_prefix_values a s ≡ map (λ e. e.1) (iter_prefix a s)
