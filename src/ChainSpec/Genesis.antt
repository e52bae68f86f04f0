-- ===== src/ChainSpec/Genesis.antt =====
-- The genesis that node/src/chain_spec.rs sets up: who holds what, and who makes the blocks.
use mathlib.Core.List.{mem-cons_self, mem-cons_of_mem}
use Prim.Native.String.{String, ◌++◌}
use vantiy_name_registry.Base.{
  ℕ, true, ◌+◌, ◌*◌, ◌^◌, ◌≡◌, refl, ap, ◌≢◌, inl, inr, Option, Option-cases, none, some, List, [],
  ◌∷◌, map, Mem, length, arith,
}
use vantiy_name_registry.Base.Results.{Result, ok, err}
use vantiy_name_registry.ChainSpec.Each.{each_total, mem-each}
use vantiy_name_registry.Base.Texts.{within, within_lem}
use vantiy_name_registry.ChainSpec.{
  Keys, get_account_id_from_seed, authority_keys_from_seed, GenesisConfig, ChainSpec,
  testnet_genesis, seeded_genesis, get_from_seed, each, development_config, local_testnet_config,
  development_accounts, local_accounts,
}

abbrev pub total_issuance : {A : Type 0} → List (A × ℕ) → ℕ
total_issuance [] = 0
total_issuance (e ∷ l) = e.1 + total_issuance l

abbrev pub zip : {A B : Type 0} → List A → List B → List (A × B)
zip [] ys = []
zip (x ∷ xs) [] = []
zip (x ∷ xs) (y ∷ ys) = (x, y) ∷ zip xs ys

pub total_issuance-map :
    {A : Type 0} (n : ℕ) (l : List A) → total_issuance (map (λ k. (k, n)) l) ≡ length l * n
total_issuance-map n [] = omega arith
total_issuance-map n (a ∷ l) = omega (arith, total_issuance-map n l)

pub map-fst :
    {A : Type 0} (n : ℕ) (l : List A) → map {A = A × ℕ} (λ e. e.0) (map (λ k. (k, n)) l) ≡ l
map-fst n [] = refl
map-fst n (a ∷ l) = ap (◌∷◌ a) (map-fst n l)

zip-map :
    {A B : Type 0} (l : List (A × B))
    → zip (map {B = A} (λ x. x.0) l) (map {B = B} (λ e. e.0) (map {B = B × ℕ} (λ x. (x.1, 1)) l))
      ≡ l
zip-map [] = refl
zip-map (x ∷ l) = ap (◌∷◌ x) (zip-map l)

-- Every endowed account gets 2 ^ 60 units, in the order given, and nothing else is issued; the keys of
-- the two consensus protocols come in pairs, those of the initial authorities in their order.
testnet_genesis-shares :
    (K : Keys) (wasm_binary : List ℕ) (initial_authorities : List (K.AuraId × K.GrandpaId))
    (root_key : K.AccountId) (endowed_accounts : List K.AccountId)
    → let g = testnet_genesis K wasm_binary initial_authorities root_key endowed_accounts in
      (map (λ e. e.0) g.balances ≡ endowed_accounts)
      × (total_issuance g.balances ≡ length endowed_accounts * 2 ^ 60)
      × (zip g.aura_authorities (map (λ e. e.0) g.grandpa_authorities) ≡ initial_authorities)
unfolding testnet_genesis
testnet_genesis-shares K wasm_binary initial_authorities root_key endowed_accounts = (
  map-fst (2 ^ 60) endowed_accounts,
  total_issuance-map (2 ^ 60) endowed_accounts,
  zip-map initial_authorities,
)

-- The strings that the configurations name are names of keys: no `expect` panics.
pub record IsSeeded (K : Keys) : Type 0 where
  pub aura : (s : String) → Mem s (local_accounts K) → K.aura_from_string ("//" ++ s) ≢ none
  pub grandpa : (s : String) → Mem s (local_accounts K) → K.grandpa_from_string ("//" ++ s) ≢ none
  pub sr25519 : (s : String) → Mem s (local_accounts K) → K.sr25519_from_string ("//" ++ s) ≢ none

module _ (K : Keys) where
  abbrev Endows : List ℕ → Option (GenesisConfig K) → Type 0
  Endows wasm_binary none = ⊥
  Endows wasm_binary (some g) = (g.code ≡ wasm_binary) × Mem g.key (map (λ e. e.0) g.balances)

  -- The chain specification is there, with a genesis of this code, in which the administrator is one of
  -- the accounts that hold funds.
  abbrev pub IsEndowed : List ℕ → Result String (ChainSpec K) → Type 0
  IsEndowed wasm_binary (err e) = ⊥
  IsEndowed wasm_binary (ok spec) = Endows wasm_binary spec.genesis

  account_total :
      IsSeeded K → (s : String) → Mem s (local_accounts K) → get_account_id_from_seed K s ≢ none
  unfolding get_account_id_from_seed get_from_seed
  account_total v s m e = elim (Option-cases (K.sr25519_from_string ("//" ++ s))) [
    | inl n ↦ v.sr25519 s m n
    | inr (k, n) ↦ ground arith
  ]

  authority_total :
      IsSeeded K → (s : String) → Mem s (local_accounts K) → authority_keys_from_seed K s ≢ none
  unfolding authority_keys_from_seed get_from_seed
  authority_total v s m e = elim (Option-cases (K.aura_from_string ("//" ++ s))) [
    | inl n ↦ v.aura s m n
    | inr (k, n) ↦ elim (Option-cases (K.grandpa_from_string ("//" ++ s))) [
      | inl o ↦ v.grandpa s m o
      | inr (j, o) ↦ ground arith
    ]
  ]

  -- What the seeds give: the keys of the authorities, the administrator, and the accounts.
  pub seeded_genesis-eq :
      (wasm_binary : List ℕ) (authorities : List String) (root : String) (endowed : List String)
      → IsSeeded K
      → within authorities (local_accounts K) ≡ true
      → within (root ∷ endowed) (local_accounts K) ≡ true
      → (keys : List (K.AuraId × K.GrandpaId)) × (key : K.AccountId) × (accounts : List K.AccountId)
        × (each (authority_keys_from_seed K) authorities ≡ some keys)
        × (get_account_id_from_seed K root ≡ some key)
        × (each (get_account_id_from_seed K) endowed ≡ some accounts)
        × (seeded_genesis K wasm_binary authorities root endowed
            ≡ some (testnet_genesis K wasm_binary keys key accounts))
  unfolding seeded_genesis
  seeded_genesis-eq wasm_binary authorities root endowed v ha he =
      let named = within_lem (root ∷ endowed) (local_accounts K) he in
      let (keys, ek) =
        each_total (authority_keys_from_seed K) authorities
          (λ s m. authority_total v s (within_lem authorities (local_accounts K) ha s m)) in
      let (accounts, ea) =
        each_total (get_account_id_from_seed K) endowed
          (λ s m. account_total v s (named s (mem-cons_of_mem root m))) in
      elim (Option-cases (get_account_id_from_seed K root)) [
        | inl n ↦ absurd (account_total v root (named root mem-cons_self) n)
        | inr (key, n) ↦ (keys, key, accounts, ek, n, ea, rw (ek, n, ea) refl)
      ]

  seeded_genesis-Endows :
      (wasm_binary : List ℕ) (authorities : List String) (root : String) (endowed : List String)
      → IsSeeded K
      → within authorities (local_accounts K) ≡ true
      → within (root ∷ endowed) (local_accounts K) ≡ true
      → Mem root endowed
      → Endows wasm_binary (seeded_genesis K wasm_binary authorities root endowed)
  unfolding testnet_genesis
  seeded_genesis-Endows wasm_binary authorities root endowed v ha he m =
      let (keys, key, accounts, ek, n, ea, e) =
        seeded_genesis-eq wasm_binary authorities root endowed v ha he in
      rw e (
        refl,
        rw (map-fst (2 ^ 60) accounts)
            (mem-each (get_account_id_from_seed K) endowed accounts root key ea n m),
      )

-- With a wasm binary built in, and seeds that name keys, both configurations give a specification whose
-- genesis runs this code and endows its administrator; without one, both fail with the same message.
pub configs-IsEndowed :
    (K : Keys) (wasm_binary : List ℕ)
    → IsSeeded K
    → IsEndowed K wasm_binary (development_config K (some wasm_binary))
      × IsEndowed K wasm_binary (local_testnet_config K (some wasm_binary))
      × (development_config K none ≡ local_testnet_config K none)
unfolding development_config local_testnet_config
configs-IsEndowed K wasm_binary v = (
  seeded_genesis-Endows K wasm_binary ("Alice" ∷ []) "Alice" (development_accounts K) v refl refl
      mem-cons_self,
  seeded_genesis-Endows K wasm_binary ("Alice" ∷ "Bob" ∷ []) "Alice" (local_accounts K) v refl refl
      mem-cons_self,
  refl,
)
