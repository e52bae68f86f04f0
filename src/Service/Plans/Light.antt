-- ===== src/Service/Plans/Light.antt =====
-- `new_light` of node/src/service.rs as a plan.
use mathlib.Core.Bool.{not}
use vantiy_name_registry.Base.{◌≡◌, sym, ap, ◌∙◌, Bool, true, false, List, [], ◌∷◌, ◌++◌}
use vantiy_name_registry.Service.Effects.{
  never, new_light_parts, spawn, light_pool, block_import, slot_duration, import_queue,
  build_network, build_offchain_workers, spawn_tasks, run_grandpa_observer, spawn_blocking,
  start_network, Host, Configuration, EffectOf, Serve, perform, give, ◌>>◌,
}
use vantiy_name_registry.Service.{
  used_endpoints, is_some, spawn_telemetry, when, grandpa_config, with_grandpa_set, start_observer,
  new_light,
}
use vantiy_name_registry.Service.Sequences.{
  perform_all, perform_all-append, optional, one, step, when-step,
}
use vantiy_name_registry.Service.Plans.{telemetry_plan, has_telemetry, telemetry-then}
use vantiy_name_registry.Base.{fun_ext, arith}

module _ (H : Host) where
  abbrev pub observer_plan : Configuration H → Bool → List (EffectOf H)
  observer_plan config telemetry =
      run_grandpa_observer (grandpa_config H config false telemetry)
      ∷ spawn_blocking "grandpa-observer"
      ∷ []

  abbrev pub light_services_plan : Configuration H → Bool → List (EffectOf H)
  light_services_plan config telemetry =
      new_light_parts telemetry
      ∷ (optional H telemetry (spawn "telemetry" ∷ [])
          ++ (light_pool
              ∷ block_import telemetry
              ∷ slot_duration
              ∷ import_queue never telemetry
              ∷ build_network (with_grandpa_set H config.extra_sets) true
              ∷ (optional H config.offchain_worker_enabled (build_offchain_workers ∷ [])
                  ++ (optional H (not config.disable_grandpa) (observer_plan config telemetry)
                      ++ spawn_tasks true telemetry ∷ start_network ∷ []))))

  abbrev pub light_plan : Configuration H → List (EffectOf H)
  light_plan config =
      telemetry_plan H (used_endpoints config.telemetry_endpoints)
      ++ light_services_plan config (has_telemetry H config)

  abbrev light_services : Configuration H → Bool → Serve H (Unit {0})
  light_services config telemetry = do
    perform H (new_light_parts telemetry)
    spawn_telemetry H telemetry
    perform H light_pool
    perform H (block_import telemetry)
    perform H slot_duration
    perform H (import_queue never telemetry)
    perform H (build_network (with_grandpa_set H config.extra_sets) true)
    when H config.offchain_worker_enabled (perform H build_offchain_workers)
    when H (not config.disable_grandpa) (start_observer H config telemetry)
    perform H (spawn_tasks true telemetry)
    perform H start_network

  observer-plan :
      (config : Configuration H) (t : Bool)
      → start_observer H config t ≡ perform_all H (observer_plan config t) (give H tt)
  unfolding start_observer perform_all
  observer-plan config t = fun_ext (λ done. ground arith)

  light_services-plan :
      (config : Configuration H) (t : Bool)
      → light_services config t ≡ perform_all H (light_services_plan config t) (give H tt)
  light_services-plan config t = step H _ _ _ (
      when-step H t _ _ _ _ (one H (spawn "telemetry")) (
        step H _ _ _ (
          step H _ _ _ (
            step H _ _ _ (
              step H _ _ _ (
                step H _ _ _ (
                  when-step H config.offchain_worker_enabled _ _ _ _ (one H build_offchain_workers)
                    (when-step H (not config.disable_grandpa) _ _ _ _ (observer-plan config t)
                      (step H _ _ _ (one H start_network))))))))))

-- A light node runs the effects of its plan in their order, behind whatever was done before, until the
-- first that fails.
pub new_light-plan :
    (H : Host) (config : Configuration H)
    → new_light H config ≡ perform_all H (light_plan H config) (give H tt)
unfolding new_light
new_light-plan H config =
    let u = used_endpoints config.telemetry_endpoints in
    telemetry-then H u (light_services H config)
    ∙ ap (perform_all H (telemetry_plan H u)) (light_services-plan H config (is_some u))
    ∙ sym (
        perform_all-append H (telemetry_plan H u) (light_services_plan H config (is_some u))
          (give H tt))
