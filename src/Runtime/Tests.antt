-- ===== src/Runtime/Tests.antt =====
-- The benchmarks of runtime/src/lib.rs with runs that report the pallet, and with macros by their
-- documentation.
mod Charged
use Prim.Native.String.{String}
use text.Mathlib.Text.{◌==◌}
use text.Mathlib.TextEquality.{eq_iff}
use mathlib.Core.List.{map-append}
use vantiy_name_registry.Base.{
  ◌*◌, ◌≤◌, List, arith, ◌≡◌, ◌⊎◌, refl, inl, inr, Bool-cases, false, [], ◌∷◌, ◌++◌, map, Mem,
  if◌then◌else◌,
}
use vantiy_name_registry.Base.Results.{ok, err, ◌>>=◌}
use vantiy_name_registry.Frame.Runtimes.{DbWeight}
use vantiy_name_registry.Registry.{Request, commit_call, reveal_call, renew_call, unregister_call}
use vantiy_name_registry.Registry.Tests.Sample.{sample}
use vantiy_name_registry.Runtime.{runtime_config}
use vantiy_name_registry.Runtime.Load.{total_weight, normal_share}
use vantiy_name_registry.Runtime.Benches.{
  Benchmarks, IsDocumented, whitelist, benchmark_metadata, dispatch_benchmark,
}
use vantiy_name_registry.Runtime.Benches.Listed.{dispatch_benchmark-cases}

abbrev B : Benchmarks
B = record {
  BenchmarkConfig = String;
  BenchmarkList = String;
  BenchmarkBatch = String;
  StorageInfo = String;
  storage_info = [];
  pallet = λ config. config;
  listed_pallet = λ name. name;
  run_benchmark = λ config keys name. if name == "pallet_timestamp" then err "failed" else ok name;
  list_benchmark = λ list extra name. list ++ name ∷ [];
  add_benchmark = λ params batches name.
      if params.0 == name
      then (if name == "pallet_timestamp" then err "failed" else ok (batches ++ name ∷ []))
      else ok batches;
}

B-IsDocumented : IsDocumented B
B-IsDocumented = record {
  listed = λ list extra name. map-append (λ (n : String). n) list (name ∷ []);
  added_other = λ config keys batches name n. elim (Bool-cases (config == name)) [
    | inl h ↦ absurd (n ((eq_iff config name).0 h))
    | inr h ↦ rw h refl
  ];
  added_same = λ config keys batches name e. elim (Bool-cases (name == "pallet_timestamp")) [
    | inl h ↦ rw ((eq_iff config name).1 e, h) refl
    | inr h ↦ rw ((eq_iff config name).1 e, h) refl
  ];
}

dispatch_benchmark-cases_example :
    (Mem "vanity_registry" (map (λ n. n) (benchmark_metadata B false).0)
      × (dispatch_benchmark B "vanity_registry" ≡ (
          B.run_benchmark "vanity_registry" whitelist "vanity_registry" >>= λ batch.
          ok (batch ∷ []))))
    ⊎ ((¬ Mem "vanity_registry" (map (λ n. n) (benchmark_metadata B false).0))
        × (dispatch_benchmark B "vanity_registry" ≡ err "Benchmark not found for this pallet."))
dispatch_benchmark-cases_example = dispatch_benchmark-cases B B-IsDocumented "vanity_registry" false
