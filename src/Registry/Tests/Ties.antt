-- ===== src/Registry/Tests/Ties.antt =====
-- Two commits to Alice's name in block 1, at the states of the front-running test of
-- pallets/vanity-registry/src/tests.rs.
use vantiy_name_registry.Base.{ℕ, ◌≤◌, ◌≡◌, refl, sym, subst, ◌∙◌, some, none, arith, ℕ_discrete}
use vantiy_name_registry.Frame.Dispatch.{ok}
use vantiy_name_registry.Registry.{LockPeriod, State, hash_of, commit, reveal}
use vantiy_name_registry.Registry.Counting.{commit_at}
use vantiy_name_registry.Registry.Entries.{begin-le_of_eq}
use vantiy_name_registry.Registry.Calls.{owner_at, new_period}
use vantiy_name_registry.Registry.Claims.{holder}
use vantiy_name_registry.Registry.FrontRunning.Ties.{IsFresh, same_block_race}
use vantiy_name_registry.Registry.Chain.Protocol.{
  committed, commit_at-committed, owner_at-committed, other-committed, block_number-committed,
}
use vantiy_name_registry.Registry.Tests.Sample.{T}
use vantiy_name_registry.Registry.Tests.Scenarios.{
  alice, bob, alice_name, bob-ne-alice, empty_at, alice-IsFree,
}

-- Alice has committed in this block.
abbrev just_committed : State T
just_committed = committed T alice_name alice (empty_at 1)

just_committed-recent :
    (x : ℕ) (q : LockPeriod)
    → commit_at T x (hash_of T x alice_name) just_committed ≡ some q
    → just_committed.block_number ≤ q.begin
just_committed-recent x q e = elim (ℕ_discrete alice x) [
  | yes k ↦
      begin-le_of_eq just_committed.block_number (new_period T (empty_at 1)) q
        (cc (
          subst (λ y. commit_at T y (hash_of T y alice_name) just_committed ≡ some q) (sym k) e,
          commit_at-committed T alice_name alice (empty_at 1),
        ))
        (omega (arith, block_number-committed T alice_name alice (empty_at 1)))
  | no n ↦ cc (
    other-committed T alice_name alice (empty_at 1) x q (λ k. n (sym k)) e,
    alice-IsFree.unclaimed x (λ k. n (sym k)),
  )
]

just_committed-IsFresh : IsFresh T alice_name just_committed
just_committed-IsFresh = record {
  unowned = owner_at-committed T alice_name alice (empty_at 1) ∙ alice-IsFree.unowned;
  recent = just_committed-recent;
}

same_block_race_example :
    let t =
      (reveal T
        (some bob)
        alice_name
        (commit T (some bob) (hash_of T bob alice_name) just_committed).1).1 in
    let r = reveal T (some alice) alice_name t in
    (r.0 ≡ ok tt)
    × (holder T (owner_at T alice_name r.1) ≡ some (bob, just_committed.block_number))
    × (commit_at T alice (hash_of T alice alice_name) r.1 ≡ none)
same_block_race_example =
    same_block_race T (some alice) (some bob) alice_name alice bob (new_period T (empty_at 1))
      just_committed just_committed-IsFresh (commit_at-committed T alice_name alice (empty_at 1))
      refl refl bob-ne-alice
