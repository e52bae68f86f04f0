-- ===== src/Service/Tests.antt =====
-- The services of node/src/service.rs with a framework that refuses nothing, and with one that has no
-- network.
use Prim.Native.String.{String}
use vantiy_name_registry.Base.{◌≡◌, refl, ◌⊎◌, Bool, true, false, Option, none, some, [], ◌∷◌, ◌++◌}
use vantiy_name_registry.Base.Results.{ok, err}
use vantiy_name_registry.Service.Effects.{Effect, build_network, Host, other, Configuration}
use vantiy_name_registry.Service.{new_partial, new_full, new_light}
use vantiy_name_registry.Service.Plans.{full_plan}
use vantiy_name_registry.Service.Plans.Light.{light_plan}
use vantiy_name_registry.Service.Plans.Outcomes.{
  Completed, Stopped, new_full-ends, new_light-ends, new_full-starts, new_full-remote_keystore,
}

-- A role is whether it is an authority.
abbrev willing : Host
willing = record {
  Role = Bool;
  is_authority = λ role. role;
  is_light = λ role. false;
  HostError = String;
  grandpa_peers_set_config = "grandpa";
  fails = λ done e. none;
}

abbrev network_fails : Effect Bool → Option String
network_fails (build_network sets on_demand) = some "no network"
network_fails _ = none

abbrev offline : Host
offline = record {
  Role = Bool;
  is_authority = λ role. role;
  is_light = λ role. false;
  HostError = String;
  grandpa_peers_set_config = "grandpa";
  fails = λ done e. network_fails e;
}

abbrev validator : (H : Host) → H.Role → Option String → Configuration H
validator H role keystore_remote = record {
  keystore_remote = keystore_remote;
  telemetry_endpoints = some ("wss://telemetry.polkadot.io/submit/" ∷ []);
  role = role;
  extra_sets = [];
  node_name = "alice";
  offchain_worker_enabled = true;
  force_authoring = false;
  disable_grandpa = false;
}

new_full-ends_example :
    Completed offline
      (full_plan offline (validator offline true none))
      []
      (new_full offline (validator offline true none) [])
    ⊎ Stopped offline
        (full_plan offline (validator offline true none))
        []
        (new_full offline (validator offline true none) [])
new_full-ends_example = new_full-ends offline (validator offline true none) [] refl

new_light-ends_example :
    Completed offline
      (light_plan offline (validator offline false none))
      []
      (new_light offline (validator offline false none) [])
    ⊎ Stopped offline
        (light_plan offline (validator offline false none))
        []
        (new_light offline (validator offline false none) [])
new_light-ends_example = new_light-ends offline (validator offline false none) []

new_full-starts_example :
    new_full willing (validator willing true none) []
    ≡ (ok tt, [] ++ full_plan willing (validator willing true none))
new_full-starts_example =
    new_full-starts willing (validator willing true none) [] refl (λ l e. refl)

new_full-remote_keystore_example :
    (new_partial willing (validator willing true (some "http://keys")) []
      ≡ (err (other "Remote Keystores are not supported."), []))
    × (new_full willing (validator willing true (some "http://keys")) []
        ≡ (err (other "Remote Keystores are not supported."), []))
new_full-remote_keystore_example =
    new_full-remote_keystore willing (validator willing true (some "http://keys")) [] "http://keys"
      refl
