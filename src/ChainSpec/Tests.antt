-- ===== src/ChainSpec/Tests.antt =====
-- The chains of node/src/chain_spec.rs, with keys that are the strings that name them.
use Prim.Native.String.{String}
use text.Mathlib.TextLemmas.{append_cancel_left}
use vantiy_name_registry.Base.{ℕ, ◌≡◌, none, some, List, [], ◌∷◌}
use vantiy_name_registry.ChainSpec.{
  Keys, get_account_id_from_seed, get_from_seed, development_config, local_testnet_config,
}
use vantiy_name_registry.ChainSpec.Building.{IsApart, Builds, configs-IsBuildable}
use vantiy_name_registry.ChainSpec.Genesis.{IsSeeded, IsEndowed, configs-IsEndowed}

abbrev K : Keys
K = record {
  AccountId = String;
  AuraId = String;
  GrandpaId = String;
  Sr25519Public = String;
  aura_from_string = λ s. some s;
  grandpa_from_string = λ s. some s;
  sr25519_from_string = λ s. some s;
  into_account = λ k. k;
}

K-IsSeeded : IsSeeded K
K-IsSeeded = record { aura = λ s m e. cc e; grandpa = λ s m e. cc e; sr25519 = λ s m e. cc e }

abbrev code : List ℕ
code = 0 ∷ 97 ∷ 115 ∷ 109 ∷ []

abbrev two_authorities : List (String × String)
two_authorities = ("//Alice", "//Alice") ∷ ("//Bob", "//Bob") ∷ []

configs-IsEndowed_example :
    IsEndowed K code (development_config K (some code))
    × IsEndowed K code (local_testnet_config K (some code))
    × (development_config K none ≡ local_testnet_config K none)
configs-IsEndowed_example = configs-IsEndowed K code K-IsSeeded

K-IsApart : IsApart K
unfolding get_account_id_from_seed get_from_seed
K-IsApart = record { apart = λ s t m n e. append_cancel_left "//" s t (cc e) }

configs-IsBuildable_example :
    Builds K (development_config K (some code)) × Builds K (local_testnet_config K (some code))
configs-IsBuildable_example = configs-IsBuildable K code K-IsSeeded K-IsApart
