-- ===== src/Service.antt =====
-- node/src/service.rs: how a full node and a light node are put together.
pub mod Effects
pub mod Executor
pub mod Sequences
pub mod Plans
mod Tests
use Prim.Native.String as Text
use Prim.Native.String.{String}
use mathlib.Core.Bool.{not}
use vantiy_name_registry.Base.{
  ℕ, Bool, true, false, Option, none, some, List, [], ◌∷◌, ◌++◌, if◌then◌else◌,
}
use vantiy_name_registry.Base.Results.{Result, ok, err}
use vantiy_name_registry.Service.Effects.{
  CanAuthorWith, native_version, never, GrandpaConfig, Effect, telemetry_worker_new, new_telemetry,
  new_full_parts, new_light_parts, spawn, full_pool, light_pool, block_import, slot_duration,
  import_queue, build_network, build_offchain_workers, spawn_tasks, start_aura, run_grandpa_voter,
  run_grandpa_observer, spawn_blocking, spawn_essential_blocking, start_network, Host, ServiceError,
  other, Configuration, Serve, perform, refuse, give, ◌>>=◌, ◌>>◌,
}

-- `.filter(|x| !x.is_empty())` on the endpoints.
abbrev pub used_endpoints : Option (List String) → Option (List String)
used_endpoints none = none
used_endpoints (some []) = none
used_endpoints (some (x ∷ xs)) = some (x ∷ xs)

-- `Option::is_some` and `is_none`.
abbrev pub is_some : {A : Type 0} → Option A → Bool
is_some none = false
is_some (some _) = true

module _ (H : Host) where
  -- The start of telemetry; the result says whether there is one.
  pub telemetry_for : Option (List String) → Serve H Bool
  telemetry_for none = give H false
  telemetry_for (some endpoints) = do
    perform H (telemetry_worker_new 16)
    perform H (new_telemetry endpoints)
    give H true

  abbrev pub spawn_telemetry : Bool → Serve H (Unit {0})
  spawn_telemetry telemetry = if telemetry then perform H (spawn "telemetry") else give H tt

  -- The result is whether the partial components have telemetry.
  pub new_partial : Configuration H → Serve H Bool
  unfolding telemetry_for
  new_partial config =
      if is_some config.keystore_remote
      then refuse H (other "Remote Keystores are not supported.")
      else do
        telemetry ← telemetry_for (used_endpoints config.telemetry_endpoints)
        perform H (new_full_parts telemetry)
        spawn_telemetry telemetry
        perform H (full_pool (H.is_authority config.role))
        perform H (block_import telemetry)
        perform H slot_duration
        perform H (import_queue native_version telemetry)
        give H telemetry

  pub remote_keystore : String → Result String (Unit {0})
  remote_keystore _url = err "Remote Keystore not supported."

  pub hook_remote_keystore : Option String → Serve H (Unit {0})
  unfolding remote_keystore
  hook_remote_keystore none = give H tt
  hook_remote_keystore (some url) = elim (remote_keystore url) [
    | ok k ↦ give H tt
    | err e ↦ refuse H (
        other
          (Text.◌++◌ "Error hooking up remote keystore for " (Text.◌++◌ url (Text.◌++◌ ": " e))))
  ]

  abbrev pub when : Bool → Serve H (Unit {0}) → Serve H (Unit {0})
  when b m = if b then m else give H tt

  abbrev pub grandpa_config : Configuration H → (keystore telemetry : Bool) → GrandpaConfig H.Role
  grandpa_config config keystore telemetry = record {
    gossip_duration = 333;
    justification_period = 512;
    name = some config.node_name;
    observer_enabled = false;
    keystore = keystore;
    local_role = config.role;
    telemetry = telemetry;
  }

  pub start_authoring : Configuration H → (telemetry : Bool) → Serve H (Unit {0})
  start_authoring config telemetry = do
    perform H slot_duration
    perform H (start_aura config.force_authoring telemetry)
    perform H (spawn_essential_blocking "aura")

  pub start_voter : Configuration H → (telemetry : Bool) → Serve H (Unit {0})
  start_voter config telemetry = do
    perform H (run_grandpa_voter (grandpa_config config (H.is_authority config.role) telemetry))
    perform H (spawn_essential_blocking "grandpa-voter")

  -- `config.network.extra_sets.push(grandpa_peers_set_config())`.
  abbrev pub with_grandpa_set : List String → List String
  with_grandpa_set sets = sets ++ H.grandpa_peers_set_config ∷ []

  pub new_full : Configuration H → Serve H (Unit {0})
  unfolding new_partial hook_remote_keystore start_authoring start_voter
  new_full config = do
    telemetry ← new_partial config
    hook_remote_keystore config.keystore_remote
    perform H (build_network (with_grandpa_set config.extra_sets) false)
    when config.offchain_worker_enabled (perform H build_offchain_workers)
    perform H (spawn_tasks false telemetry)
    when (H.is_authority config.role) (start_authoring config telemetry)
    when (not config.disable_grandpa) (start_voter config telemetry)
    perform H start_network

  pub start_observer : Configuration H → (telemetry : Bool) → Serve H (Unit {0})
  start_observer config telemetry = do
    perform H (run_grandpa_observer (grandpa_config config false telemetry))
    perform H (spawn_blocking "grandpa-observer")

  pub new_light : Configuration H → Serve H (Unit {0})
  unfolding telemetry_for start_observer
  new_light config = do
    telemetry ← telemetry_for (used_endpoints config.telemetry_endpoints)
    perform H (new_light_parts telemetry)
    spawn_telemetry telemetry
    perform H light_pool
    perform H (block_import telemetry)
    perform H slot_duration
    perform H (import_queue never telemetry)
    perform H (build_network (with_grandpa_set config.extra_sets) true)
    when config.offchain_worker_enabled (perform H build_offchain_workers)
    when (not config.disable_grandpa) (start_observer config telemetry)
    perform H (spawn_tasks true telemetry)
    perform H start_network
