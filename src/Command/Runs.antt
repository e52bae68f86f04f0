-- ===== src/Command/Runs.antt =====
-- What `run` and `load_spec` of node/src/command.rs promise.
use Prim.Native.String.{String}
use text.Mathlib.Text.{◌==◌}
use text.Mathlib.TextEquality.{eq_iff}
use vantiy_name_registry.Base.{
  ℕ, ◌≡◌, refl, ◌∙◌, ◌≢◌, ◌⊎◌, inl, inr, Bool, true, false, Option, none, some, List, Bool-cases,
  ◌++◌, arith, if◌then◌else◌,
}
use vantiy_name_registry.Base.Results.{Result, ok, err}
use vantiy_name_registry.ChainSpec.{Keys, ChainSpec, development_config, local_testnet_config}
use vantiy_name_registry.Service.Effects.{Host, ServiceError, other, Configuration, EffectOf, Serve}
use vantiy_name_registry.Service.{new_partial, new_full, new_light}
use vantiy_name_registry.Service.Plans.{full_plan}
use vantiy_name_registry.Service.Plans.Outcomes.{
  new_full-remote_keystore, new_full-starts, new_light-starts,
}
use vantiy_name_registry.Service.Plans.Light.{light_plan}
use vantiy_name_registry.Command.{
  load_spec, Subcommand, check_block, export_blocks, export_state, import_blocks, revert, service,
  Runners, Runs, ending, behind, async_run, run_node, run,
}

-- The commands that work on the partial components of a node.
pub data NeedsPartial : Subcommand → Type 0 where
  check_block_needs : NeedsPartial check_block
  export_blocks_needs : NeedsPartial export_blocks
  export_state_needs : NeedsPartial export_state
  import_blocks_needs : NeedsPartial import_blocks
  revert_needs : NeedsPartial revert

module _ (H : Host) {A : Type 0} (m : Serve H A) (rest : Runs H)
    (done so_far : List (EffectOf H)) where
  behind-ok : (a : A) → m done ≡ (ok a, so_far) → behind H m rest done ≡ rest so_far
  behind-ok a e = ground arith

  behind-err :
      (x : ServiceError H.HostError)
      → m done ≡ (err x, so_far)
      → behind H m rest done ≡ (err (service x), so_far)
  behind-err x e = ground arith

module _ (H : Host) (R : Runners H) where
  run-async_run :
      (b : Bool) (cmd : Subcommand) (done : List (EffectOf H))
      → NeedsPartial cmd
      → run H R b (some cmd) done ≡ async_run H R cmd done
  unfolding run
  run-async_run true _ done check_block_needs = refl
  run-async_run false _ done check_block_needs = refl
  run-async_run true _ done export_blocks_needs = refl
  run-async_run false _ done export_blocks_needs = refl
  run-async_run true _ done export_state_needs = refl
  run-async_run false _ done export_state_needs = refl
  run-async_run true _ done import_blocks_needs = refl
  run-async_run false _ done import_blocks_needs = refl
  run-async_run true _ done revert_needs = refl
  run-async_run false _ done revert_needs = refl

  async_run-remote_keystore :
      (cmd : Subcommand) (config : Configuration H) (url : String) (done : List (EffectOf H))
      → R.create_runner (some cmd) ≡ ok config
      → config.keystore_remote ≡ some url
      → async_run H R cmd done ≡ (err (service (other "Remote Keystores are not supported.")), done)
  unfolding async_run
  async_run-remote_keystore cmd config url done made remote = rw made (
      behind-err H (new_partial H config) (ending H (R.run_command cmd)) done done
        (other "Remote Keystores are not supported.")
        (new_full-remote_keystore H config done url remote).0)

  -- The plan of the node that the role of a configuration asks for.
  abbrev pub node_plan : Configuration H → List (EffectOf H)
  node_plan config = if H.is_light config.role then light_plan H config else full_plan H config

  run_node-plan :
      (config : Configuration H) (done : List (EffectOf H))
      → R.create_runner none ≡ ok config
      → config.keystore_remote ≡ none
      → ((l : List (EffectOf H)) (e : EffectOf H) → H.fails l e ≡ none)
      → let all = done ++ node_plan config in run_node H R done ≡ ending H (R.until_exit all) all
  unfolding run_node
  run_node-plan config done made keystore never_fails = elim (Bool-cases (H.is_light config.role)) [
    | inl light ↦
        rw (made, light)
          (behind-ok H (new_light H config) (λ l. ending H (R.until_exit l) l) done
            (done ++ light_plan H config) tt (new_light-starts H config done never_fails))
    | inr full ↦
        rw (made, full)
          (behind-ok H (new_full H config) (λ l. ending H (R.until_exit l) l) done
            (done ++ full_plan H config) tt (new_full-starts H config done keystore never_fails))
  ]

-- A command that works on the partial components is refused, with no effect, where its configuration
-- has a remote keystore.
pub run-remote_keystore :
    (H : Host) (R : Runners H) (b : Bool) (cmd : Subcommand) (config : Configuration H)
    (url : String) (done : List (EffectOf H))
    → NeedsPartial cmd
    → R.create_runner (some cmd) ≡ ok config
    → config.keystore_remote ≡ some url
    → run H R b (some cmd) done
      ≡ (err (service (other "Remote Keystores are not supported.")), done)
run-remote_keystore H R b cmd config url done needs made remote =
    run-async_run H R b cmd done needs
    ∙ async_run-remote_keystore H R cmd config url done made remote

-- Without a subcommand and without a remote keystore, and where the framework refuses none of the effects
-- of a service, a run has exactly the effects of the light node's plan for a light role and of the full
-- node's for any other, behind whatever was done before; then it ends as the framework's run of the started
-- node does, with the error of that where there is one.
pub run-node :
    (H : Host) (R : Runners H) (b : Bool) (config : Configuration H) (done : List (EffectOf H))
    → R.create_runner none ≡ ok config
    → config.keystore_remote ≡ none
    → ((l : List (EffectOf H)) (e : EffectOf H) → H.fails l e ≡ none)
    → let all = done ++ node_plan H R config in
      run H R b none done ≡ ending H (R.until_exit all) all
unfolding run
run-node H R true config done made keystore never_fails =
    run_node-plan H R config done made keystore never_fails
run-node H R false config done made keystore never_fails =
    run_node-plan H R config done made keystore never_fails

-- Which specification an id loads: the development chain for "dev", the local one for "local" and for
-- no id, and otherwise the file at that path.
pub load_spec-cases :
    (K : Keys) (wasm_binary : Option (List ℕ))
    (from_json_file : String → Result String (ChainSpec K)) (id : String)
    → ((id ≡ "dev")
        × (load_spec K wasm_binary from_json_file id ≡ development_config K wasm_binary))
      ⊎ (((id ≡ "") ⊎ (id ≡ "local"))
          × (load_spec K wasm_binary from_json_file id ≡ local_testnet_config K wasm_binary))
      ⊎ ((id ≢ "dev")
          × (id ≢ "")
          × (id ≢ "local")
          × (load_spec K wasm_binary from_json_file id ≡ from_json_file id))
unfolding load_spec
load_spec-cases K wasm_binary from_json_file id = elim (Bool-cases (id == "dev")) [
  | inl d ↦ inl ((eq_iff id "dev").0 d, rw d refl)
  | inr d ↦ elim (Bool-cases (id == "")) [
    | inl n ↦ inr (inl (inl ((eq_iff id "").0 n), rw (d, n) refl))
    | inr n ↦ elim (Bool-cases (id == "local")) [
      | inl l ↦ inr (inl (inr ((eq_iff id "local").0 l), rw (d, n, l) refl))
      | inr l ↦ inr (inr (differs "dev" d, differs "" n, differs "local" l, rw (d, n, l) refl))
    ]
  ]
]
  where
    differs : (t : String) → (id == t) ≡ false → id ≢ t
    differs t f e = cc (f, (eq_iff id t).1 e)
