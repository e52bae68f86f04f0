-- ===== src/Frame/Runtimes.antt =====
-- What frame_support has for a runtime: the parts of a pallet that `construct_runtime!` takes in, the
-- version of a runtime, and the weights of the database.
use Prim.Native.String.{String}
use vantiy_name_registry.Base.{ℕ}

pub data Part : Type 0 where
  pallet call storage config event inherent : Part

-- `RuntimeDbWeight`: what some reads and some writes of the database weigh.
pub record DbWeight : Type 0 where
  pub reads : ℕ → ℕ
  pub writes : ℕ → ℕ

-- `RuntimeVersion`, without the list of API versions that the build generates.
pub record RuntimeVersion : Type 0 where
  pub spec_name : String
  pub impl_name : String
  pub authoring_version : ℕ
  pub spec_version : ℕ
  pub impl_version : ℕ
  pub transaction_version : ℕ
