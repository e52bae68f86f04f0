-- ===== src/Registry/Tests/Late.antt =====
-- The registry of pallets/vanity-registry/src/mock.rs near the end of its block numbers.
use vantiy_name_registry.Base.{◌≢◌, ◌≡◌, refl, none, some, arith}
use vantiy_name_registry.Registry.{OwnerOf, State, hash_of, insert_owner, commit, renew}
use vantiy_name_registry.Registry.Counting.{commit_at}
use vantiy_name_registry.Registry.Calls.{owner_at}
use vantiy_name_registry.Registry.Chain.{genesis, next_block}
use vantiy_name_registry.Registry.Chain.Wrapping.{IsLate, wrapped_periods_expire}
use vantiy_name_registry.Registry.Chain.Replay.{owner_id}
use vantiy_name_registry.Registry.Tests.Sample.{T}
use vantiy_name_registry.Registry.Tests.Scenarios.{alice, alice_name, bob_name, empty_at}

-- Alice holds her name in a block ten before the end.
abbrev last_owner : OwnerOf T
last_owner = record {
  id = alice;
  commit = hash_of T alice alice_name;
  lock_period = record { begin = 18446744073709551580; end = 18446744073709551610 };
}

abbrev last_blocks : State T
last_blocks = insert_owner T alice_name last_owner (empty_at 18446744073709551606)

last_blocks-IsLate : IsLate T last_blocks
unfolding insert_owner genesis
last_blocks-IsLate = record {
  within = omega arith;
  period_within = omega arith;
  wraps = omega arith;
}

-- Alice commits to Bob's name, and renews her own.
wrapped_periods_expire_example :
    (commit_at T alice
        (hash_of T alice bob_name)
        (next_block T (commit T (some alice) (hash_of T alice bob_name) last_blocks).1)
      ≡ none)
    × (owner_id T
          (owner_at T alice_name (next_block T (renew T (some alice) alice_name last_blocks).1))
        ≢ some alice)
wrapped_periods_expire_example =
    wrapped_periods_expire T last_blocks (some alice) alice (hash_of T alice bob_name) alice_name
      last_blocks-IsLate refl
