-- ===== src/Registry/Tests/Races.antt =====
-- The theorems on who wins a name, at the states of the front-running test of
-- pallets/vanity-registry/src/tests.rs.
use vantiy_name_registry.Base.{arith, ◌≤◌, ℕ, ◌≡◌, refl, ◌⊎◌, Option, some, List, [], ◌∷◌}
use mathlib.Core.List.{head-eq_of_cons-eq}
use vantiy_name_registry.Frame.Dispatch.{err, pallet_error}
use vantiy_name_registry.Registry.{
  State, hash_of, Request, commit_call, reveal_call, unregister_call, dispatch, commit, reveal,
  commit_not_found,
}
use vantiy_name_registry.Registry.Calls.{owner_at, new_period}
use vantiy_name_registry.Registry.Claims.{holder}
use vantiy_name_registry.Registry.FrontRunning.Wins.{run_calls, oldest_commit_wins}
use vantiy_name_registry.Registry.Chain.{next_block, genesis}
use vantiy_name_registry.Base.Words.{wrapping_add}
use vantiy_name_registry.Registry.Blocks.{block_number-dispatch}
use vantiy_name_registry.Registry.Chain.Periods.Reached.{block_number-next_block}
use vantiy_name_registry.Registry.Chain.Waiting.{Move, call_of, end_of_block, run_moves}
use vantiy_name_registry.Registry.Chain.Protocol.{commit-reveal}
use vantiy_name_registry.Registry.Hashing.{
  IsCodec, preimage, Collision, hash_of-binds, copied_commit,
}
use vantiy_name_registry.Registry.Tests.Sample.{T}
use vantiy_name_registry.Registry.Tests.Scenarios.{
  alice, bob, alice_name, empty_at, block_two, bob-ne-alice, not_alice, alice-IsFree, period_fits,
  alice-IsFirst,
}

abbrev bob_hash : List ℕ
bob_hash = hash_of T bob alice_name

-- Bob commits to the name and reveals it in front of Alice.
abbrev in_front : List (Option ℕ × Request T)
in_front = (some bob, commit_call bob_hash) ∷ (some bob, reveal_call alice_name) ∷ []

abbrev behind : List (Option ℕ × Request T)
behind = (some bob, reveal_call alice_name) ∷ (some bob, unregister_call alice_name) ∷ []

-- Bob commits in the block behind that of Alice, and reveals in the next one.
abbrev meanwhile : List (Move T)
meanwhile =
    call_of (some bob) (commit_call bob_hash)
    ∷ end_of_block
    ∷ call_of (some bob) (reveal_call alice_name)
    ∷ []

abbrev alice_committed : State T
alice_committed = (commit T (some alice) (hash_of T alice alice_name) (empty_at 1)).1

abbrev bob_committed : State T
bob_committed = (dispatch T (some bob) (commit_call bob_hash) (next_block T alice_committed)).1

meanwhile-in_time :
    (run_moves T meanwhile (next_block T alice_committed)).block_number
    ≤ (new_period T (empty_at 1)).end
unfolding run_moves dispatch wrapping_add
meanwhile-in_time = omega (
  arith,
  block_number-dispatch T (some alice) (commit_call (hash_of T alice alice_name)) (empty_at 1),
  block_number-next_block T alice_committed,
  block_number-dispatch T (some bob) (commit_call bob_hash) (next_block T alice_committed),
  block_number-next_block T bob_committed,
  block_number-dispatch T (some bob) (reveal_call alice_name) (next_block T bob_committed),
)

commit-reveal_example :
    holder T (
      owner_at T alice_name (
        run_calls T behind
          (reveal T
            (some alice)
            alice_name
            (run_moves T meanwhile (next_block T alice_committed))).1))
    ≡ some (alice, 1)
commit-reveal_example =
    commit-reveal T meanwhile behind (some alice) alice_name alice (empty_at 1) alice-IsFree
      period_fits refl (not_alice, (not_alice, tt)) meanwhile-in_time
      ((λ k. not_alice k.0), ((λ k. not_alice k.0), tt))

oldest_commit_wins_example :
    holder T (
      owner_at T alice_name
        (run_calls T behind (reveal T (some alice) alice_name (run_calls T in_front block_two)).1))
    ≡ some (alice, 1)
oldest_commit_wins_example =
    oldest_commit_wins T in_front behind (some alice) alice_name alice (new_period T (empty_at 1))
      block_two alice-IsFirst (not_alice, (not_alice, tt)) refl
      ((λ k. not_alice k.0), ((λ k. not_alice k.0), tt))

T-IsCodec : IsCodec T
T-IsCodec = record {
  account_length = 1;
  account_fixed = λ a. refl;
  account_injective = λ a b e. head-eq_of_cons-eq e;
  name_injective = λ m n e. e;
}

hash_of-binds_example :
    ((alice ≡ alice) × (alice_name ≡ alice_name))
    ⊎ Collision T (preimage T alice alice_name) (preimage T alice alice_name)
hash_of-binds_example = hash_of-binds T alice alice alice_name alice_name T-IsCodec refl

copied_commit_example :
    ((reveal T
        (some bob)
        alice_name
        (commit T (some bob) (hash_of T alice alice_name) (empty_at 7)).1).0
      ≡ err (pallet_error commit_not_found))
    ⊎ Collision T (preimage T bob alice_name) (preimage T alice alice_name)
unfolding genesis
copied_commit_example =
    copied_commit T (some bob) bob alice alice_name (empty_at 7) T-IsCodec refl bob-ne-alice
      (T.lock_periods.get-empty bob bob_hash)
