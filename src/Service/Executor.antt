-- ===== src/Service/Executor.antt =====
-- The native executor of node/src/service.rs.
use Prim.Native.String.{String}
use vantiy_name_registry.Base.{ℕ, Option, List}
use vantiy_name_registry.Runtime.{NativeVersion, native_version}

-- `NativeExecutionDispatch`, without the host functions.
pub record ExecutorDispatch : Type 0 where
  pub dispatch : (method : String) (input : List ℕ) → Option (List ℕ)
  pub native_version : NativeVersion

-- Given the `api::dispatch` that the runtime's macros generate.
abbrev pub executor_dispatch : (api_dispatch : String → List ℕ → Option (List ℕ)) → ExecutorDispatch
executor_dispatch api_dispatch = record {
  dispatch = λ method input. api_dispatch method input;
  native_version = native_version;
}
