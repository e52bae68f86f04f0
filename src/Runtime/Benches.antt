-- ===== src/Runtime/Benches.antt =====
-- The benchmarks of the runtime, `impl frame_benchmarking::Benchmark` of runtime/src/lib.rs: which pallets
-- they are listed for, and which they can be run for.
pub mod Listed
use mathlib.Core.List.{
  Nodup-cons, mem-cons_self, mem-cons_of_mem, eq-or-mem_of_mem-cons, not-mem-nil, Mem-prop,
}
use mathlib.Core.Logic.Or
use Prim.Native.String.{String}
use text.Mathlib.Text.{◌==◌}
use text.Mathlib.TextEquality.{eq_iff}
use vantiy_name_registry.Base.{
  ◌≡◌, refl, sym, ap, subst, ◌∙◌, ◌≢◌, ◌⊎◌, inl, inr, Bool, Bool-cases, true, false, List, [], ◌∷◌,
  ◌++◌, map, Mem, Nodup, arith, if◌then◌else◌,
}
use vantiy_name_registry.Base.Results.{Result, ok, err, ◌>>=◌}
use vantiy_name_registry.Base.Texts.{contains, contains_lem, contains-mem, distinct_lem}

-- What frame_benchmarking provides: the pallet that a configuration names, the run of a pallet's
-- benchmark, and the macros `list_benchmark!` and `add_benchmark!`.
pub record Benchmarks : Type 1 where
  pub BenchmarkConfig : Type 0
  pub BenchmarkList : Type 0
  pub BenchmarkBatch : Type 0
  pub StorageInfo : Type 0
  pub storage_info : List StorageInfo
  pub pallet : BenchmarkConfig → String
  pub listed_pallet : BenchmarkList → String
  pub run_benchmark :
      BenchmarkConfig → (whitelist : List String) → String → Result String BenchmarkBatch
  pub list_benchmark : List BenchmarkList → (extra : Bool) → String → List BenchmarkList
  pub add_benchmark :
      (params : BenchmarkConfig × List String)
      → List BenchmarkBatch
      → String
      → Result String (List BenchmarkBatch)

-- The keys that are not counted, in hexadecimal notation.
abbrev pub whitelist : List String
whitelist =
    "26aa394eea5630e07c48ae0c9558cef702a5c1b19ab7a04f536c519aca4983ac"
    ∷ "c2261276cc9d1f8598ea4b6a74b15c2f57c875e4cff74148e4628f264b974c80"
    ∷ "26aa394eea5630e07c48ae0c9558cef7ff553b5a9862a516939d82b3d3d8661a"
    ∷ "26aa394eea5630e07c48ae0c9558cef70a98fdbe9ce6c55837576c60c7af3850"
    ∷ "26aa394eea5630e07c48ae0c9558cef780d41e5e16056765bc8461851072c9d7" ∷ []

abbrev is_empty : {A : Type 0} → List A → Bool
is_empty [] = true
is_empty (_ ∷ _) = false

module _ (B : Benchmarks) where
  pub benchmark_metadata : (extra : Bool) → List B.BenchmarkList × List B.StorageInfo
  benchmark_metadata extra =
      let list = B.list_benchmark [] extra "frame_system" in
      let list = B.list_benchmark list extra "pallet_balances" in
      let list = B.list_benchmark list extra "pallet_timestamp" in
      let list = B.list_benchmark list extra "vanity_registry" in (list, B.storage_info)

  -- The end of `dispatch_benchmark`.
  abbrev pub found : List B.BenchmarkBatch → Result String (List B.BenchmarkBatch)
  found batches =
      if is_empty batches then err "Benchmark not found for this pallet." else ok batches

  pub dispatch_benchmark : B.BenchmarkConfig → Result String (List B.BenchmarkBatch)
  dispatch_benchmark config = do
    let params : B.BenchmarkConfig × List String = (config, whitelist)
    batches ← B.add_benchmark params [] "frame_system"
    batches ← B.add_benchmark params batches "pallet_balances"
    batches ← B.add_benchmark params batches "pallet_timestamp"
    batches ← B.add_benchmark params batches "vanity_registry"
    found batches

-- The macros as documented: a pallet is listed under its name; a benchmark is added where the
-- configuration names its pallet, and an error of its run ends the whole.
pub record IsDocumented (B : Benchmarks) : Type 0 where
  pub listed :
      (list : List B.BenchmarkList) (extra : Bool) (name : String)
      → map B.listed_pallet (B.list_benchmark list extra name)
        ≡ map B.listed_pallet list ++ name ∷ []
  pub added_other :
      (config : B.BenchmarkConfig) (keys : List String) (batches : List B.BenchmarkBatch)
      (name : String)
      → B.pallet config ≢ name
      → B.add_benchmark (config, keys) batches name ≡ ok batches
  pub added_same :
      (config : B.BenchmarkConfig) (keys : List String) (batches : List B.BenchmarkBatch)
      (name : String)
      → B.pallet config ≡ name
      → B.add_benchmark (config, keys) batches name
        ≡ (B.run_benchmark config keys name >>= λ batch. ok (batches ++ batch ∷ []))
