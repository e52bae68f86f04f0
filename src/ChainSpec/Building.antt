-- ===== src/ChainSpec/Building.antt =====
-- The genesis of node/src/chain_spec.rs against the limits of runtime/src/lib.rs, which the framework
-- asserts when it builds the genesis storage.
use mathlib.Core.Logic.{∥∥₁_elim}
use native.Mathlib.Bridge.{le_prop}
use mathlib.Core.List.{exists_of_mem-map, mem-cons_of_mem}
use Prim.Native.String.{String}
use vantiy_name_registry.Base.{
  ℕ, ◌≤◌, ◌<◌, ◌^◌, ◌≡◌, refl, sym, ap, subst, true, Option, none, some, List, [], ◌∷◌, map, Mem,
  Nodup, length, arith, length-map,
}
use vantiy_name_registry.Base.Results.{Result, ok, err}
use vantiy_name_registry.ChainSpec.{
  Keys, get_account_id_from_seed, authority_keys_from_seed, GenesisConfig, ChainSpec,
  testnet_genesis, seeded_genesis, development_config, local_testnet_config, development_accounts,
  local_accounts,
}
use vantiy_name_registry.ChainSpec.Each.{length-each, Nodup-each}
use vantiy_name_registry.Base.Texts.{within, within_lem, distinct, distinct_lem}
use vantiy_name_registry.ChainSpec.Genesis.{
  IsSeeded, seeded_genesis-eq, total_issuance, total_issuance-map, map-fst,
}
use vantiy_name_registry.Runtime.{existential_deposit, max_authorities}

-- Different seeds that the configurations name are of different accounts.
pub record IsApart (K : Keys) : Type 0 where
  pub apart :
      (s t : String)
      → Mem s (local_accounts K)
      → Mem t (local_accounts K)
      → get_account_id_from_seed K s ≡ get_account_id_from_seed K t
      → s ≡ t

module _ (K : Keys) where
  -- No account is endowed twice or with less than the deposit that keeps it alive, the issuance is a
  -- balance, and the authorities are no more than their lists hold.
  pub record IsBuildable (g : GenesisConfig K) : Type 0 where
    pub alive : (a : K.AccountId) (n : ℕ) → Mem (a, n) g.balances → existential_deposit ≤ n
    pub endowed_once : Nodup (map (λ e. e.0) g.balances)
    pub issued : total_issuance g.balances < 2 ^ 128
    pub aura_fits : length g.aura_authorities ≤ max_authorities
    pub grandpa_fits : length g.grandpa_authorities ≤ max_authorities

  abbrev BuildsGenesis : Option (GenesisConfig K) → Type 0
  BuildsGenesis none = ⊥
  BuildsGenesis (some g) = IsBuildable g

  -- The specification is there, and its genesis can be built.
  abbrev pub Builds : Result String (ChainSpec K) → Type 0
  Builds (err e) = ⊥
  Builds (ok spec) = BuildsGenesis spec.genesis

  testnet_genesis-IsBuildable :
      (wasm_binary : List ℕ) (keys : List (K.AuraId × K.GrandpaId)) (key : K.AccountId)
      (accounts : List K.AccountId)
      → Nodup accounts
      → length accounts ≤ 2 ^ 60
      → length keys ≤ max_authorities
      → IsBuildable (testnet_genesis K wasm_binary keys key accounts)
  unfolding testnet_genesis
  testnet_genesis-IsBuildable wasm_binary keys key accounts d la lk = record {
    alive = λ a n m. ∥∥₁_elim (exists_of_mem-map m) le_prop (λ w. omega (arith, ap (λ e. e.1) w.2));
    endowed_once = subst Nodup (sym (map-fst (2 ^ 60) accounts)) d;
    issued = omega (arith, total_issuance-map (2 ^ 60) accounts);
    aura_fits = omega (arith, length-map (λ (x : K.AuraId × K.GrandpaId). x.0) keys);
    grandpa_fits =
        omega
          (arith, length-map {B = K.GrandpaId × ℕ} (λ (x : K.AuraId × K.GrandpaId). (x.1, 1)) keys);
  }

  seeded_genesis-IsBuildable :
      (wasm_binary : List ℕ) (authorities : List String) (root : String) (endowed : List String)
      → IsSeeded K
      → IsApart K
      → within authorities (local_accounts K) ≡ true
      → within (root ∷ endowed) (local_accounts K) ≡ true
      → distinct endowed ≡ true
      → length endowed ≤ 2 ^ 60
      → length authorities ≤ max_authorities
      → BuildsGenesis (seeded_genesis K wasm_binary authorities root endowed)
  seeded_genesis-IsBuildable wasm_binary authorities root endowed v w ha he d le la =
      let (keys, key, accounts, ek, n, ea, e) =
        seeded_genesis-eq K wasm_binary authorities root endowed v ha he in
      let named : (s : String) → Mem s endowed → Mem s (local_accounts K) =
        λ s m. within_lem (root ∷ endowed) (local_accounts K) he s (mem-cons_of_mem root m) in
      rw e (
        testnet_genesis-IsBuildable wasm_binary keys key accounts
          (Nodup-each (get_account_id_from_seed K) endowed accounts
            (λ s t ms mt. w.apart s t (named s ms) (named t mt)) ea (distinct_lem endowed d))
          (omega (arith, length-each (get_account_id_from_seed K) endowed accounts ea))
          (omega (arith, length-each (authority_keys_from_seed K) authorities keys ek)))

-- With a wasm binary, and seeds that name keys and different accounts, the genesis of both
-- configurations can be built into the runtime's storage: every balance keeps its account alive, no account
-- is endowed twice, all that is issued is a balance, and the authorities are no more than `MaxAuthorities`.
pub configs-IsBuildable :
    (K : Keys) (wasm_binary : List ℕ)
    → IsSeeded K
    → IsApart K
    → Builds K (development_config K (some wasm_binary))
      × Builds K (local_testnet_config K (some wasm_binary))
unfolding development_config local_testnet_config
configs-IsBuildable K wasm_binary v w = (
  seeded_genesis-IsBuildable K wasm_binary ("Alice" ∷ []) "Alice" (development_accounts K) v w refl
      refl refl (omega arith) (omega arith),
  seeded_genesis-IsBuildable K wasm_binary ("Alice" ∷ "Bob" ∷ []) "Alice" (local_accounts K) v w
      refl refl refl (omega arith) (omega arith),
)
