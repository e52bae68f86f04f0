-- ===== src/Runtime/Benches/Listed.antt =====
-- For which pallets `dispatch_benchmark` of runtime/src/lib.rs runs a benchmark.
use mathlib.Core.List.{
  Nodup-cons, mem-cons_self, mem-cons_of_mem, eq-or-mem_of_mem-cons, not-mem-nil, Mem-prop,
}
use mathlib.Core.Logic.Or
use Prim.Native.String.{String}
use text.Mathlib.Text.{◌==◌}
use text.Mathlib.TextEquality.{eq_iff}
use vantiy_name_registry.Base.{
  ◌≡◌, refl, sym, ap, subst, ◌∙◌, ◌⊎◌, inl, inr, Bool, Bool-cases, false, List, [], ◌∷◌, ◌++◌, map,
  Mem, Nodup,
}
use vantiy_name_registry.Base.Results.{Result, ok, err, ◌>>=◌}
use vantiy_name_registry.Base.Texts.{contains, contains_lem, contains-mem, distinct_lem}
use vantiy_name_registry.Runtime.Benches.{
  Benchmarks, IsDocumented, whitelist, found, benchmark_metadata, dispatch_benchmark,
}

abbrev pub benchmarked : List String
benchmarked = "frame_system" ∷ "pallet_balances" ∷ "pallet_timestamp" ∷ "vanity_registry" ∷ []

module _ (B : Benchmarks) (v : IsDocumented B) where
  pub benchmark_metadata-listed :
      (extra : Bool) → map B.listed_pallet (benchmark_metadata B extra).0 ≡ benchmarked
  unfolding benchmark_metadata
  benchmark_metadata-listed extra = simp v.listed refl

  module _ (config : B.BenchmarkConfig)
      (k : List B.BenchmarkBatch → Result String (List B.BenchmarkBatch)) where
    -- The benchmarks of some pallets, and then the rest.
    adding : List String → List B.BenchmarkBatch → Result String (List B.BenchmarkBatch)
    adding [] batches = k batches
    adding (n ∷ ns) batches = B.add_benchmark (config, whitelist) batches n >>= adding ns

    adding-absent :
        (ns : List String) (batches : List B.BenchmarkBatch)
        → ¬ Mem (B.pallet config) ns
        → adding ns batches ≡ k batches
    unfolding adding
    adding-absent [] batches n = refl
    adding-absent (x ∷ ns) batches n =
        ap (λ r. r >>= adding ns)
          (v.added_other config whitelist batches x
            (λ e. n (subst (λ r. Mem r (x ∷ ns)) (sym e) mem-cons_self)))
        ∙ adding-absent ns batches (λ m. n (mem-cons_of_mem x m))

    behind_run :
        (r : Result String B.BenchmarkBatch) (ns : List String) (batches : List B.BenchmarkBatch)
        → ¬ Mem (B.pallet config) ns
        → ((r >>= λ b. ok (batches ++ b ∷ [])) >>= adding ns) ≡ (r >>= λ b. k (batches ++ b ∷ []))
    behind_run (ok b) ns batches n = adding-absent ns (batches ++ b ∷ []) n
    behind_run (err e) ns batches n = refl

    adding-present :
        (ns : List String) (batches : List B.BenchmarkBatch)
        → Nodup ns
        → Mem (B.pallet config) ns
        → adding ns batches
          ≡ (B.run_benchmark config whitelist (B.pallet config) >>= λ b. k (batches ++ b ∷ []))
    unfolding adding
    adding-present [] batches d m = absurd (not-mem-nil m)
    adding-present (x ∷ ns) batches d m = elim (Bool-cases (B.pallet config == x)) [
      | inl h ↦
          ap (λ r. r >>= adding ns)
            (v.added_same config whitelist batches x ((eq_iff (B.pallet config) x).0 h))
          ∙ behind_run (B.run_benchmark config whitelist x) ns batches
              (subst (λ r. ¬ Mem r ns) (sym ((eq_iff (B.pallet config) x).0 h)) (Nodup-cons.0 d).0)
          ∙ ap (λ r. B.run_benchmark config whitelist r >>= λ b. k (batches ++ b ∷ []))
              (sym ((eq_iff (B.pallet config) x).0 h))
      | inr h ↦
          ap (λ r. r >>= adding ns)
            (v.added_other config whitelist batches x
              (λ e. cc (h, (eq_iff (B.pallet config) x).1 e)))
          ∙ adding-present ns batches (Nodup-cons.0 d).1 (later h)
    ]
      where
        later : (B.pallet config == x) ≡ false → Mem (B.pallet config) ns
        later h =
            Or.elim Mem-prop (eq-or-mem_of_mem-cons m)
              (λ q. absurd (cc (h, (eq_iff (B.pallet config) x).1 q))) (λ r. r)

-- A benchmark is run just where its pallet is listed in the metadata: then the result is the batch of
-- that one run, or its error, and for any other pallet it is the message that there is none. The macros
-- are as documented.
pub dispatch_benchmark-cases :
    (B : Benchmarks) (v : IsDocumented B) (config : B.BenchmarkConfig) (extra : Bool)
    → (Mem (B.pallet config) (map B.listed_pallet (benchmark_metadata B extra).0)
        × (dispatch_benchmark B config
            ≡ (B.run_benchmark config whitelist (B.pallet config) >>= λ batch. ok (batch ∷ []))))
      ⊎ ((¬ Mem (B.pallet config) (map B.listed_pallet (benchmark_metadata B extra).0))
          × (dispatch_benchmark B config ≡ err "Benchmark not found for this pallet."))
unfolding dispatch_benchmark adding
dispatch_benchmark-cases B v config extra =
    let e = benchmark_metadata-listed B v extra in
    elim (Bool-cases (contains benchmarked (B.pallet config))) [
      | inl h ↦
          let m = contains_lem benchmarked (B.pallet config) h in
          inl (
            subst (Mem (B.pallet config)) (sym e) m,
            adding-present B v config (found B) benchmarked [] (distinct_lem benchmarked refl) m,
          )
      | inr h ↦
          let n : ¬ Mem (B.pallet config) benchmarked =
            λ m. cc (h, contains-mem benchmarked (B.pallet config) m) in
          inr (
            subst (λ l. ¬ Mem (B.pallet config) l) (sym e) n,
            adding-absent B v config (found B) benchmarked [] n,
          )
    ]
