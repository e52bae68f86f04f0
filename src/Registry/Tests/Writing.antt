-- ===== src/Registry/Tests/Writing.antt =====
-- The writes of Alice's commit, and of the end of a block in which it expires
-- (pallets/vanity-registry/src/lib.rs).
use vantiy_name_registry.Base.{◌+◌, ◌*◌, ◌≡◌, refl, arith, some, length}
use vantiy_name_registry.Registry.{
  State, Request, hash_of, commit_call, dispatch, expired_commits, expired_names, on_finalize,
}
use vantiy_name_registry.Registry.Chain.{genesis}
use vantiy_name_registry.Registry.Writes.{counted, writes, charged}
use vantiy_name_registry.Registry.Writes.Erasure.{erase, erase_request, erased, dispatch-writes}
use vantiy_name_registry.Registry.Writes.Finalize.{writes-on_finalize}
use vantiy_name_registry.Frame.Runtimes.{DbWeight}
use vantiy_name_registry.Weights.{substrate_weight, unit_weight}
use vantiy_name_registry.Weights.Charges.{weight_of_writes}
use vantiy_name_registry.Registry.Tests.Sample.{T}
use vantiy_name_registry.Registry.Tests.Scenarios.{alice, alice_name}

abbrev start : State (counted T)
start = genesis (counted T)

abbrev committed : State (counted T)
committed =
    (dispatch (counted T) (some alice) (commit_call (hash_of (counted T) alice alice_name)) start).1

-- The weights of RocksDB.
abbrev rocks_db : DbWeight
rocks_db = record { reads = λ n. n * 25000000; writes = λ n. n * 100000000 }

abbrev alice_commits : Request (counted T)
alice_commits = commit_call (hash_of (counted T) alice alice_name)

dispatch-writes_example :
    let r = dispatch (counted T) (some alice) alice_commits start in
    (erased T r ≡ dispatch T (some alice) (erase_request T alice_commits) (erase T start))
    × (writes T r.1 * 100000000
        ≡ charged T r.0 (weight_of_writes (counted T) substrate_weight rocks_db alice_commits)
          + writes T start * 100000000)
    × (writes T r.1 * 100000000
        ≡ charged T r.0 (weight_of_writes (counted T) unit_weight rocks_db alice_commits)
          + writes T start * 100000000)
dispatch-writes_example =
    dispatch-writes T rocks_db (some alice) alice_commits start 25000000 100000000 (λ n l. refl)
      (λ n l. refl) (omega arith) (omega arith)

writes-on_finalize_example :
    let t = on_finalize (counted T) 95 committed in
    let expired =
      length (expired_commits (counted T) 95 committed)
      + length (expired_names (counted T) 95 committed) in
    (writes T t ≡ 2 * expired + writes T committed)
    × (length t.events ≡ expired + length committed.events)
writes-on_finalize_example = writes-on_finalize T 95 committed
