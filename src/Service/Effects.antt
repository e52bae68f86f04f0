-- ===== src/Service/Effects.antt =====
-- What node/src/service.rs asks of the framework, as effects in the order of the calls. An effect
-- shows those arguments that the service decides on; the handles that it hands on are left out.
use Prim.Native.String.{String}
use vantiy_name_registry.Base.{ℕ, Bool, Option, none, some, List, [], ◌∷◌, ◌++◌}
use vantiy_name_registry.Base.Results.{Result, ok, err}

-- `can_author_with` of an import queue.
pub data CanAuthorWith : Type 0 where
  native_version never : CanAuthorWith

-- `sc_finality_grandpa::Config`; a keystore and a telemetry handle are there or not.
pub record GrandpaConfig (Role : Type 0) : Type 0 where
  pub gossip_duration : ℕ
  pub justification_period : ℕ
  pub name : Option String
  pub observer_enabled : Bool
  pub keystore : Bool
  pub local_role : Role
  pub telemetry : Bool

pub data Effect (Role : Type 0) : Type 0 where
  telemetry_worker_new : ℕ → Effect Role
  new_telemetry : List String → Effect Role
  new_full_parts : (telemetry : Bool) → Effect Role
  new_light_parts : (telemetry : Bool) → Effect Role
  spawn : String → Effect Role
  full_pool : (is_authority : Bool) → Effect Role
  light_pool : Effect Role
  block_import : (telemetry : Bool) → Effect Role
  slot_duration : Effect Role
  import_queue : CanAuthorWith → (telemetry : Bool) → Effect Role
  build_network : (extra_sets : List String) → (on_demand : Bool) → Effect Role
  build_offchain_workers : Effect Role
  spawn_tasks : (on_demand telemetry : Bool) → Effect Role
  start_aura : (force_authoring telemetry : Bool) → Effect Role
  run_grandpa_voter : GrandpaConfig Role → Effect Role
  run_grandpa_observer : GrandpaConfig Role → Effect Role
  spawn_blocking : String → Effect Role
  spawn_essential_blocking : String → Effect Role
  start_network : Effect Role

-- The framework's roles and errors, the set of peers for grandpa, and which effect fails behind which
-- others.
pub record Host : Type 1 where
  pub Role : Type 0
  pub is_authority : Role → Bool
  pub is_light : Role → Bool
  pub HostError : Type 0
  pub grandpa_peers_set_config : String
  pub fails : List (Effect Role) → Effect Role → Option HostError

pub data ServiceError (HostError : Type 0) : Type 0 where
  other : String → ServiceError HostError
  host_error : HostError → ServiceError HostError

-- A computation runs behind the effects so far, and adds its own.
abbrev pub Run : Type 0 → Type 0 → Type 0 → Type 0
Run R E A = List (Effect R) → Result (ServiceError E) A × List (Effect R)

module _ (H : Host) where
  -- What the service reads of the `Configuration`.
  pub record Configuration : Type 0 where
    pub keystore_remote : Option String
    pub telemetry_endpoints : Option (List String)
    pub role : H.Role
    pub extra_sets : List String
    pub node_name : String
    pub offchain_worker_enabled : Bool
    pub force_authoring : Bool
    pub disable_grandpa : Bool

  abbrev pub EffectOf : Type 0
  EffectOf = Effect H.Role

  abbrev pub Serve : Type 0 → Type 0
  Serve A = Run H.Role H.HostError A

  abbrev pub perform : EffectOf → Serve (Unit {0})
  perform e done = elim (H.fails done e) [
    | none ↦ (ok tt, done ++ e ∷ [])
    | some x ↦ (err (host_error x), done)
  ]

  abbrev pub refuse : {A : Type 0} → ServiceError H.HostError → Serve A
  refuse e done = (err e, done)

  abbrev pub give : {A : Type 0} → A → Serve A
  give a done = (ok a, done)

infixl 5 ◌>>=◌ ◌>>◌
abbrev pub ◌>>=◌ : {R E A B : Type 0} → Run R E A → (A → Run R E B) → Run R E B
◌>>=◌ m f done = let (r, so_far) = m done in elim r [ ok a ↦ f a so_far | err e ↦ (err e, so_far) ]

abbrev pub ◌>>◌ : {R E B : Type 0} → Run R E (Unit {0}) → Run R E B → Run R E B
m >> k = m >>= λ _. k
