-- ===== src/Benchmarks/Tests.antt =====
-- The benchmarks of pallets/vanity-registry/src/benchmarking.rs on the mock runtime, with the prefix
-- of SCALE for vectors of less than 64 bytes.
use vantiy_name_registry.Base.{
  ℕ, zero, suc, ◌*◌, ◌/◌, ◌≡◌, refl, ap, ◌∙◌, Option, none, some, List, [], ◌∷◌, length, arith,
}
use mathlib.Core.Option.{map as option_map}
use vantiy_name_registry.Frame.Maps.{assoc_map}
use vantiy_name_registry.Registry.Chain.{genesis}
use vantiy_name_registry.Registry.Tests.Sample.{T}
use vantiy_name_registry.Registry.Tests.Scenarios.{alice, bob, bob-ne-alice, empty_at}
use vantiy_name_registry.Benchmarks.{
  Benchmarking, replicate, commit_benchmark, reveal_benchmark, renew_benchmark,
  unregister_benchmark,
}
use vantiy_name_registry.Benchmarks.Setup.{IsSetUp}
use vantiy_name_registry.Benchmarks.Checks.{benchmarks-verify}

-- The first `n` bytes, if there are so many.
take_bytes : ℕ → List ℕ → Option (List ℕ)
take_bytes zero xs = some []
take_bytes (suc n) [] = none
take_bytes (suc n) (x ∷ xs) = option_map (λ ys. x ∷ ys) (take_bytes n xs)

decode_bytes : List ℕ → Option (List ℕ)
decode_bytes [] = none
decode_bytes (n ∷ xs) = take_bytes (n / 4) xs

abbrev B : Benchmarking T
B = record {
  whitelisted_caller = alice;
  bob = bob;
  signed = λ a. some a;
  encode = λ xs. 4 * length xs ∷ xs;
  decode = decode_bytes;
}

length-replicate : (n x : ℕ) → length (replicate n x) ≡ n
length-replicate zero x = refl
length-replicate (suc n) x = ap suc (length-replicate n x)

take_bytes-replicate : (n x : ℕ) → take_bytes n (replicate n x) ≡ some (replicate n x)
unfolding take_bytes
take_bytes-replicate zero x = refl
take_bytes-replicate (suc n) x = ap (option_map (λ ys. x ∷ ys)) (take_bytes-replicate n x)

decode_bytes-replicate :
    (l : ℕ) → decode_bytes (4 * length (replicate l 66) ∷ replicate l 66) ≡ some (replicate l 66)
unfolding decode_bytes
decode_bytes-replicate l =
    ap (λ n. take_bytes n (replicate l 66)) (rw (length-replicate l 66) (omega arith))
    ∙ take_bytes-replicate l 66

set_up : IsSetUp T B
unfolding decode_bytes take_bytes
set_up = record {
  signed_by = λ a. refl;
  distinct = λ e. bob-ne-alice (cc e);
  short_name = 66 ∷ [];
  decode-abcde = refl;
  long_name = λ l. replicate l 66;
  decode-encode = decode_bytes-replicate;
}

benchmarks-verify_example :
    (commit_benchmark T B (empty_at 0) ≡ some tt)
    × (reveal_benchmark T B 255 (empty_at 0) ≡ some tt)
    × (renew_benchmark T B (empty_at 0) ≡ some tt)
    × (unregister_benchmark T B (empty_at 0) ≡ some tt)
unfolding genesis assoc_map
benchmarks-verify_example =
    benchmarks-verify T B set_up 255 (empty_at 0) (T.owners.get-empty (66 ∷ []))
      (T.owners.get-empty (replicate 255 66))
