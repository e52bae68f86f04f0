-- ===== src/Command.antt =====
-- node/src/command.rs, node/src/cli.rs and node/src/main.rs: which chain and which service the command line starts. The
-- parsing of the arguments is the framework's.
pub mod Runs
mod Tests
use Prim.Native.String.{String}
use text.Mathlib.Text.{◌==◌}
use vantiy_name_registry.Base.{
  ℕ, Bool, true, false, ◌||◌, Option, none, some, List, [], if◌then◌else◌,
}
use vantiy_name_registry.Base.Results.{Result, ok, err}
use vantiy_name_registry.ChainSpec.{Keys, ChainSpec, development_config, local_testnet_config}
use vantiy_name_registry.Frame.Runtimes.{RuntimeVersion}
use vantiy_name_registry.Runtime.{version}
use vantiy_name_registry.Service.Effects.{Host, ServiceError, Configuration, EffectOf, Serve}
use vantiy_name_registry.Service.{new_partial, new_full, new_light}

-- `SubstrateCli::load_spec`, given the framework's reader of a JSON file.
pub load_spec :
    (K : Keys) (wasm_binary : Option (List ℕ))
    (from_json_file : String → Result String (ChainSpec K)) (id : String)
    → Result String (ChainSpec K)
load_spec K wasm_binary from_json_file id =
    if id == "dev"
    then development_config K wasm_binary
    else if id == "" || id == "local"
    then local_testnet_config K wasm_binary
    else from_json_file id

-- What the build of the package hands to `env!`.
pub record PackageEnv : Type 0 where
  pub substrate_cli_impl_version : String
  pub cargo_pkg_description : String
  pub cargo_pkg_authors : String

pub record SubstrateCli (K : Keys) : Type 0 where
  pub impl_name : String
  pub impl_version : String
  pub description : String
  pub author : String
  pub support_url : String
  pub copyright_start_year : ℕ
  pub load_spec : (id : String) → Result String (ChainSpec K)
  pub native_runtime_version : ChainSpec K → RuntimeVersion

abbrev pub substrate_cli :
    (K : Keys) (env : PackageEnv) (wasm_binary : Option (List ℕ))
    (from_json_file : String → Result String (ChainSpec K))
    → SubstrateCli K
substrate_cli K env wasm_binary from_json_file = record {
  impl_name = "Substrate Node";
  impl_version = env.substrate_cli_impl_version;
  description = env.cargo_pkg_description;
  author = env.cargo_pkg_authors;
  support_url = "support.anonymous.an";
  copyright_start_year = 2017;
  load_spec = load_spec K wasm_binary from_json_file;
  native_runtime_version = λ _. version;
}

pub data Subcommand : Type 0 where
  key build_spec check_block export_blocks export_state import_blocks : Subcommand
  purge_chain revert benchmark : Subcommand

-- What a run returns where it fails: an error of the service, a text, or an error of the framework.
pub data CliError (H : Host) : Type 0 where
  service : ServiceError H.HostError → CliError H
  input : String → CliError H
  runner : H.HostError → CliError H

-- The framework's side of a run: `create_runner`, of a subcommand or of the node's own command, what the
-- `run` of a subcommand returns, and how a node ends that has started with these effects: by a signal to
-- exit, or by the error of an essential task that fails.
pub record Runners (H : Host) : Type 0 where
  pub create_runner : Option Subcommand → Result H.HostError (Configuration H)
  pub run_command : Subcommand → Result H.HostError (Unit {0})
  pub until_exit : List (EffectOf H) → Result H.HostError (Unit {0})

module _ (H : Host) where
  -- A run behind the effects that the services have had so far.
  abbrev pub Runs : Type 0
  Runs = List (EffectOf H) → Result (CliError H) (Unit {0}) × List (EffectOf H)

  abbrev pub ending : Result H.HostError (Unit {0}) → Runs
  ending (ok u) done = (ok u, done)
  ending (err e) done = (err (runner e), done)

  abbrev pub refuse_run : CliError H → Runs
  refuse_run e done = (err e, done)

  abbrev pub with_config : Result H.HostError (Configuration H) → (Configuration H → Runs) → Runs
  with_config (ok config) f done = f config done
  with_config (err e) f done = (err (runner e), done)

  -- A service and then the rest, with the service's error passed on.
  abbrev pub behind : {A : Type 0} → Serve H A → Runs → Runs
  behind m rest done =
      let (r, so_far) = m done in elim r [ ok _ ↦ rest so_far | err e ↦ (err (service e), so_far) ]

module _ (H : Host) (R : Runners H) where
  -- `runner.sync_run(|config| cmd.run(..))`.
  abbrev pub sync_run : Subcommand → Runs H
  sync_run cmd = with_config H (R.create_runner (some cmd)) (λ config. ending H (R.run_command cmd))

  -- `runner.async_run(..)` of a command on the partial components.
  pub async_run : Subcommand → Runs H
  async_run cmd =
      with_config H (R.create_runner (some cmd))
        (λ config. behind H (new_partial H config) (ending H (R.run_command cmd)))

  -- `runner.run_node_until_exit(..)`: the error of a service that does not start, and else how it ends.
  pub run_node : Runs H
  run_node = with_config H (R.create_runner none) (λ config.
      behind H (if H.is_light config.role then new_light H config else new_full H config)
        (λ done. ending H (R.until_exit done) done))

  -- `run`, with what the arguments were parsed to, in a build with or without benchmarks.
  pub run : (runtime_benchmarks : Bool) → Option Subcommand → Runs H
  unfolding async_run run_node
  run _ (some key) = ending H (R.run_command key)
  run _ (some build_spec) = sync_run build_spec
  run _ (some check_block) = async_run check_block
  run _ (some export_blocks) = async_run export_blocks
  run _ (some export_state) = async_run export_state
  run _ (some import_blocks) = async_run import_blocks
  run _ (some purge_chain) = sync_run purge_chain
  run _ (some revert) = async_run revert
  run true (some benchmark) = sync_run benchmark
  run false (some benchmark) = refuse_run H (
      input
        "Benchmarking wasn't enabled when building the node. You can enable it with `--features runtime-benchmarks`.")
  run _ none = run_node

  -- The program: a run that has had no effect yet.
  abbrev pub main :
      (runtime_benchmarks : Bool)
      → Option Subcommand
      → Result (CliError H) (Unit {0}) × List (EffectOf H)
  main runtime_benchmarks subcommand = run runtime_benchmarks subcommand []
