-- ===== src/Command/Tests.antt =====
-- The command line of node/src/command.rs on a host that refuses nothing.
use Prim.Native.String.{String}
use vantiy_name_registry.Base.{◌≡◌, refl, Bool, true, false, Option, none, some, []}
use vantiy_name_registry.Base.Results.{ok, err}
use vantiy_name_registry.Service.Effects.{Host, other, Configuration}
use vantiy_name_registry.Command.{check_block, service, Runners, run}
use vantiy_name_registry.Command.Runs.{check_block_needs, run-remote_keystore}

abbrev host : Host
host = record {
  Role = Bool;
  is_authority = λ role. role;
  is_light = λ role. false;
  HostError = String;
  grandpa_peers_set_config = "grandpa";
  fails = λ done e. none;
}

abbrev node_config : Option String → Configuration host
node_config keystore_remote = record {
  keystore_remote = keystore_remote;
  telemetry_endpoints = none;
  role = true;
  extra_sets = [];
  node_name = "bob";
  offchain_worker_enabled = false;
  force_authoring = true;
  disable_grandpa = true;
}

abbrev runners : Option String → Runners host
runners keystore_remote = record {
  create_runner = λ cmd. ok (node_config keystore_remote);
  run_command = λ cmd. ok tt;
  until_exit = λ done. err "Essential task failed";
}

run-remote_keystore_example :
    run host (runners (some "http://keys")) false (some check_block) []
    ≡ (err (service (other "Remote Keystores are not supported.")), [])
run-remote_keystore_example =
    run-remote_keystore host (runners (some "http://keys")) false check_block
      (node_config (some "http://keys")) "http://keys" [] check_block_needs refl refl
