-- ===== src/Service/Plans.antt =====
-- node/src/service.rs as a plan: the effects that a configuration asks for, in their order.
pub mod Light
pub mod Outcomes
use Prim.Native.String.{String}
use mathlib.Core.Bool.{not}
use vantiy_name_registry.Base.{
  ℕ, ◌≡◌, refl, sym, ap, ◌∙◌, fun_ext, Bool, true, false, Option, none, some, List, [], ◌∷◌, ◌++◌,
  if◌then◌else◌, arith,
}
use vantiy_name_registry.Base.Results.{Result, ok, err}
use vantiy_name_registry.Service.Effects.{
  CanAuthorWith, native_version, never, GrandpaConfig, Effect, telemetry_worker_new, new_telemetry,
  new_full_parts, new_light_parts, spawn, full_pool, light_pool, block_import, slot_duration,
  import_queue, build_network, build_offchain_workers, spawn_tasks, start_aura, run_grandpa_voter,
  run_grandpa_observer, spawn_blocking, spawn_essential_blocking, start_network, Host, ServiceError,
  other, host_error, Configuration, EffectOf, Run, Serve, perform, refuse, give, ◌>>=◌, ◌>>◌,
}
use vantiy_name_registry.Service.Sequences.{
  perform_all, perform_all-append, perform_all-bind, optional, one, step, when-step,
}
use vantiy_name_registry.Service.{
  used_endpoints, is_some, telemetry_for, spawn_telemetry, new_partial, remote_keystore,
  hook_remote_keystore, when, grandpa_config, start_authoring, start_voter, with_grandpa_set,
  new_full, start_observer, new_light,
}

module _ (H : Host) where
  abbrev pub telemetry_plan : Option (List String) → List (EffectOf H)
  telemetry_plan none = []
  telemetry_plan (some endpoints) = telemetry_worker_new 16 ∷ new_telemetry endpoints ∷ []

  telemetry_for-plan :
      (u : Option (List String))
      → telemetry_for H u ≡ perform_all H (telemetry_plan u) (give H (is_some u))
  unfolding telemetry_for perform_all
  telemetry_for-plan none = refl
  telemetry_for-plan (some endpoints) = refl

  abbrev pub has_telemetry : Configuration H → Bool
  has_telemetry config = is_some (used_endpoints config.telemetry_endpoints)

  abbrev pub parts_plan : Configuration H → Bool → List (EffectOf H)
  parts_plan config telemetry =
      new_full_parts telemetry
      ∷ (optional H telemetry (spawn "telemetry" ∷ [])
          ++ (full_pool (H.is_authority config.role)
              ∷ block_import telemetry
              ∷ slot_duration
              ∷ import_queue native_version telemetry
              ∷ []))

  abbrev pub partial_plan : Configuration H → List (EffectOf H)
  partial_plan config =
      telemetry_plan (used_endpoints config.telemetry_endpoints)
      ++ parts_plan config (has_telemetry config)

  abbrev pub aura_plan : Configuration H → List (EffectOf H)
  aura_plan config =
      slot_duration
      ∷ start_aura config.force_authoring (has_telemetry config)
      ∷ spawn_essential_blocking "aura"
      ∷ []

  abbrev pub voter_plan : Configuration H → List (EffectOf H)
  voter_plan config =
      run_grandpa_voter
        (grandpa_config H config (H.is_authority config.role) (has_telemetry config))
      ∷ spawn_essential_blocking "grandpa-voter"
      ∷ []

  abbrev pub services_plan : Configuration H → List (EffectOf H)
  services_plan config =
      build_network (with_grandpa_set H config.extra_sets) false
      ∷ (optional H config.offchain_worker_enabled (build_offchain_workers ∷ [])
          ++ (spawn_tasks false (has_telemetry config)
              ∷ (optional H (H.is_authority config.role) (aura_plan config)
                  ++ (optional H (not config.disable_grandpa) (voter_plan config)
                      ++ start_network ∷ []))))

  abbrev pub full_plan : Configuration H → List (EffectOf H)
  full_plan config = partial_plan config ++ services_plan config

  telemetry-then :
      {A : Type 0} (u : Option (List String)) (body : Bool → Serve H A)
      → ◌≡◌ {A = Serve H A}
          (telemetry_for H u >>= body)
          (perform_all H (telemetry_plan u) (body (is_some u)))
  telemetry-then u body =
      ap (λ (m : Serve H Bool). m >>= body) (telemetry_for-plan u)
      ∙ perform_all-bind H (telemetry_plan u) (give H (is_some u)) body

  -- The components behind the telemetry, as `new_partial` has them.
  abbrev parts : Configuration H → Bool → Serve H Bool
  parts config telemetry = do
    perform H (new_full_parts telemetry)
    spawn_telemetry H telemetry
    perform H (full_pool (H.is_authority config.role))
    perform H (block_import telemetry)
    perform H slot_duration
    perform H (import_queue native_version telemetry)
    give H telemetry

  parts-plan :
      (config : Configuration H) (t : Bool)
      → parts config t ≡ perform_all H (parts_plan config t) (give H t)
  unfolding perform_all
  parts-plan config true = refl
  parts-plan config false = refl

  new_partial-plan :
      (config : Configuration H)
      → config.keystore_remote ≡ none
      → new_partial H config ≡ perform_all H (partial_plan config) (give H (has_telemetry config))
  unfolding new_partial
  new_partial-plan config e =
      let u = used_endpoints config.telemetry_endpoints in
      rw e (
        telemetry-then u (parts config)
        ∙ ap (perform_all H (telemetry_plan u)) (parts-plan config (is_some u))
        ∙ sym (
            perform_all-append H (telemetry_plan u) (parts_plan config (is_some u))
              (give H (is_some u))))

  authoring-plan :
      (config : Configuration H)
      → start_authoring H config (has_telemetry config)
        ≡ perform_all H (aura_plan config) (give H tt)
  unfolding start_authoring perform_all
  authoring-plan config = fun_ext (λ done. ground arith)

  voter-plan :
      (config : Configuration H)
      → start_voter H config (has_telemetry config) ≡ perform_all H (voter_plan config) (give H tt)
  unfolding start_voter perform_all
  voter-plan config = fun_ext (λ done. ground arith)

  -- What `new_full` does behind the partial components.
  abbrev services : Configuration H → Bool → Serve H (Unit {0})
  services config telemetry = do
    perform H (build_network (with_grandpa_set H config.extra_sets) false)
    when H config.offchain_worker_enabled (perform H build_offchain_workers)
    perform H (spawn_tasks false telemetry)
    when H (H.is_authority config.role) (start_authoring H config telemetry)
    when H (not config.disable_grandpa) (start_voter H config telemetry)
    perform H start_network

  services-plan :
      (config : Configuration H)
      → services config (has_telemetry config) ≡ perform_all H (services_plan config) (give H tt)
  services-plan config = step H _ _ _ (
      when-step H config.offchain_worker_enabled _ _ _ _ (one H build_offchain_workers) (
        step H _ _ _ (
          when-step H (H.is_authority config.role) _ _ _ _ (authoring-plan config) (
            when-step H (not config.disable_grandpa) _ _ _ _ (voter-plan config)
              (one H start_network)))))

  hooked :
      (config : Configuration H) (k : Serve H (Unit {0}))
      → config.keystore_remote ≡ none
      → ◌≡◌ {A = Serve H (Unit {0})} (hook_remote_keystore H config.keystore_remote >> k) k
  unfolding hook_remote_keystore
  hooked config k e = rw e refl

-- A full node without a remote keystore runs the effects of its plan in their order, behind whatever
-- was done before, until the first that fails.
pub new_full-plan :
    (H : Host) (config : Configuration H)
    → config.keystore_remote ≡ none
    → new_full H config ≡ perform_all H (full_plan H config) (give H tt)
unfolding new_full
new_full-plan H config e =
    let t = has_telemetry H config in
    let rest : Bool → Serve H (Unit {0}) =
      λ b. hook_remote_keystore H config.keystore_remote >> services H config b in
    ap (λ (m : Serve H Bool). m >>= rest) (new_partial-plan H config e)
    ∙ perform_all-bind H (partial_plan H config) (give H t) rest
    ∙ ap (perform_all H (partial_plan H config))
        (hooked H config (services H config t) e ∙ services-plan H config)
    ∙ sym (perform_all-append H (partial_plan H config) (services_plan H config) (give H tt))
