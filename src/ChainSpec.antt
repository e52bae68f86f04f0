-- ===== src/ChainSpec.antt =====
-- node/src/chain_spec.rs: the chains that the node can start, and their genesis. `none` is a panic of
-- an `expect`.
pub mod Each
pub mod Genesis
pub mod Building
mod Tests
use Prim.Native.String.{String, ◌++◌}
use vantiy_name_registry.Base.{ℕ, ◌^◌, Option, none, some, List, [], ◌∷◌, map}
use vantiy_name_registry.Base.Results.{Result, ok, err}

-- The public keys of sp_core: that of the pair that a string names, if it names one, and the account of
-- an sr25519 key.
pub record Keys : Type 1 where
  pub AccountId : Type 0
  pub AuraId : Type 0
  pub GrandpaId : Type 0
  pub Sr25519Public : Type 0
  pub aura_from_string : String → Option AuraId
  pub grandpa_from_string : String → Option GrandpaId
  pub sr25519_from_string : String → Option Sr25519Public
  pub into_account : Sr25519Public → AccountId

infixl 5 ◌>>=◌
abbrev pub ◌>>=◌ : {A B : Type 0} → Option A → (A → Option B) → Option B
none >>= f = none
some a >>= f = f a

-- The members of a `vec!`, one after the other.
abbrev pub each : {A B : Type 0} → (A → Option B) → List A → Option (List B)
each f [] = some []
each f (a ∷ l) = do b ← f a; rest ← each f l; some (b ∷ rest)

unfoldable pub get_from_seed : {P : Type 0} → (from_string : String → Option P) → String → Option P
get_from_seed from_string seed = from_string ("//" ++ seed)

pub data ChainType : Type 0 where
  development local : ChainType

module _ (K : Keys) where
  pub get_account_id_from_seed : String → Option K.AccountId
  unfolding get_from_seed
  get_account_id_from_seed seed = do
    key ← get_from_seed K.sr25519_from_string seed
    some (K.into_account key)

  pub authority_keys_from_seed : String → Option (K.AuraId × K.GrandpaId)
  unfolding get_from_seed
  authority_keys_from_seed s = do
    aura ← get_from_seed K.aura_from_string s
    grandpa ← get_from_seed K.grandpa_from_string s
    some (aura, grandpa)

  pub record GenesisConfig : Type 0 where
    -- `SystemConfig.code`.
    pub code : List ℕ
    pub balances : List (K.AccountId × ℕ)
    pub aura_authorities : List K.AuraId
    pub grandpa_authorities : List (K.GrandpaId × ℕ)
    -- `SudoConfig.key`.
    pub key : K.AccountId

  -- The arguments of `ChainSpec::from_genesis`; the genesis is what its closure returns.
  pub record ChainSpec : Type 0 where
    pub name : String
    pub id : String
    pub chain_type : ChainType
    pub genesis : Option GenesisConfig
    pub boot_nodes : List String

  pub testnet_genesis :
      (wasm_binary : List ℕ) (initial_authorities : List (K.AuraId × K.GrandpaId))
      (root_key : K.AccountId) (endowed_accounts : List K.AccountId)
      → GenesisConfig
  testnet_genesis wasm_binary initial_authorities root_key endowed_accounts = record {
    code = wasm_binary;
    balances = map (λ k. (k, 2 ^ 60)) endowed_accounts;
    aura_authorities = map (λ x. x.0) initial_authorities;
    grandpa_authorities = map (λ x. (x.1, 1)) initial_authorities;
    key = root_key;
  }

  -- The closure of both configurations, for the seeds that they name.
  pub seeded_genesis :
      (wasm_binary : List ℕ) (authorities : List String) (root : String) (endowed : List String)
      → Option GenesisConfig
  unfolding get_account_id_from_seed authority_keys_from_seed
  seeded_genesis wasm_binary authorities root endowed = do
    initial_authorities ← each authority_keys_from_seed authorities
    root_key ← get_account_id_from_seed root
    endowed_accounts ← each get_account_id_from_seed endowed
    some (testnet_genesis wasm_binary initial_authorities root_key endowed_accounts)

  abbrev pub development_accounts : List String
  development_accounts = "Alice" ∷ "Bob" ∷ "Alice//stash" ∷ "Bob//stash" ∷ []

  abbrev pub local_accounts : List String
  local_accounts =
      "Alice" ∷ "Bob" ∷ "Charlie" ∷ "Dave" ∷ "Eve" ∷ "Ferdie" ∷ "Alice//stash" ∷ "Bob//stash"
      ∷ "Charlie//stash" ∷ "Dave//stash" ∷ "Eve//stash" ∷ "Ferdie//stash" ∷ []

  pub development_config : (wasm_binary : Option (List ℕ)) → Result String ChainSpec
  development_config none = err "Development wasm not available"
  development_config (some wasm_binary) = ok (record {
    name = "Development";
    id = "dev";
    chain_type = development;
    genesis = seeded_genesis wasm_binary ("Alice" ∷ []) "Alice" development_accounts;
    boot_nodes = [];
  })

  pub local_testnet_config : (wasm_binary : Option (List ℕ)) → Result String ChainSpec
  local_testnet_config none = err "Development wasm not available"
  local_testnet_config (some wasm_binary) = ok (record {
    name = "Local Testnet";
    id = "local_testnet";
    chain_type = local;
    genesis = seeded_genesis wasm_binary ("Alice" ∷ "Bob" ∷ []) "Alice" local_accounts;
    boot_nodes = [];
  })
