-- ===== src/Registry/Tests/Orders.antt =====
-- Two states that hold the commits of Alice and of Bob in two orders (pallets/vanity-registry/src/lib.rs).
use vantiy_name_registry.Base.{◌≡◌, sym, ap, subst, ◌∙◌, ◌≢◌, some, List, [], ◌∷◌}
use vantiy_name_registry.Registry.{LockPeriod, State, hash_of, insert_commit, reveal_call}
use vantiy_name_registry.Registry.Counting.{commit_at, num_of_commits-eq}
use vantiy_name_registry.Registry.Commits
use vantiy_name_registry.Registry.Chain.Waiting.{Move, call_of, end_of_block, run_moves}
use vantiy_name_registry.Registry.Spec.{view, commit_key_discrete}
use vantiy_name_registry.Registry.Ledger.{ledger}
use vantiy_name_registry.Registry.Ledger.Order.{results, run_moves-order}
use vantiy_name_registry.Registry.Tests.Sample.{T}
use vantiy_name_registry.Registry.Tests.Scenarios.{
  alice, bob, alice_name, bob_name, bob-ne-alice, empty_at, T-IsFunded,
}

abbrev period : LockPeriod
period = record { begin = 7; end = 102 }

abbrev committing : T.AccountId → T.Name → State T → State T
committing who name s = insert_commit T who (hash_of T who name) period s

abbrev alice_last : State T
alice_last = committing alice alice_name (committing bob bob_name (empty_at 7))

abbrev bob_last : State T
bob_last = committing bob bob_name (committing alice alice_name (empty_at 7))

abbrev key : T.AccountId → T.Name → T.AccountId × T.Hash
key who name = (who, hash_of T who name)

keys-ne : key bob bob_name ≢ key alice alice_name
keys-ne q = bob-ne-alice (ap (λ k. k.0) q)

same_commit :
    (k : T.AccountId × T.Hash) → commit_at T k.0 k.1 alice_last ≡ commit_at T k.0 k.1 bob_last
same_commit k = elim (commit_key_discrete T (key alice alice_name) k) [
  | yes q ↦
      subst
        (λ (j : T.AccountId × T.Hash).
          commit_at T j.0 j.1 alice_last ≡ commit_at T j.0 j.1 bob_last)
        q
        (Commits.commit_at-insert_commit_self T alice (hash_of T alice alice_name) period
            (committing bob bob_name (empty_at 7))
          ∙ sym (
              Commits.commit_at-insert_commit_ne T bob alice (hash_of T bob bob_name)
                (hash_of T alice alice_name) period (committing alice alice_name (empty_at 7))
                keys-ne
              ∙ Commits.commit_at-insert_commit_self T alice (hash_of T alice alice_name) period
                  (empty_at 7)))
  | no n ↦ elim (commit_key_discrete T (key bob bob_name) k) [
    | yes q ↦
        subst
          (λ (j : T.AccountId × T.Hash).
            commit_at T j.0 j.1 alice_last ≡ commit_at T j.0 j.1 bob_last)
          q
          (Commits.commit_at-insert_commit_ne T alice bob (hash_of T alice alice_name)
              (hash_of T bob bob_name) period (committing bob bob_name (empty_at 7))
              (λ r. keys-ne (sym r))
            ∙ Commits.commit_at-insert_commit_self T bob (hash_of T bob bob_name) period
                (empty_at 7)
            ∙ sym (
                Commits.commit_at-insert_commit_self T bob (hash_of T bob bob_name) period
                  (committing alice alice_name (empty_at 7))))
    | no m ↦
        untouched alice alice_name bob bob_name k n m
        ∙ sym (untouched bob bob_name alice alice_name k m n)
  ]
]
  where
    untouched :
        (x : T.AccountId) (xn : T.Name) (y : T.AccountId) (yn : T.Name) (k : T.AccountId × T.Hash)
        → key x xn ≢ k
        → key y yn ≢ k
        → commit_at T k.0 k.1 (committing x xn (committing y yn (empty_at 7)))
          ≡ commit_at T k.0 k.1 (empty_at 7)
    untouched x xn y yn k n m =
        Commits.commit_at-insert_commit_ne T x k.0 (hash_of T x xn) k.1 period
          (committing y yn (empty_at 7)) n
        ∙ Commits.commit_at-insert_commit_ne T y k.0 (hash_of T y yn) k.1 period (empty_at 7) m

same_ledger : ledger T alice_last ≡ ledger T bob_last
unfolding ledger view insert_commit
same_ledger = λ i. record {
  block_number = 7;
  commits = λ k. same_commit k i;
  count = λ a. num_of_commits-eq T a bob_last alice_last (λ h. same_commit (a, h)) i;
  owners = (ledger T alice_last).owners;
  locks = (ledger T alice_last).locks;
  events = (ledger T alice_last).events;
}

abbrev moves : List (Move T)
moves = call_of (some bob) (reveal_call bob_name) ∷ end_of_block ∷ []

run_moves-order_example :
    (results T moves alice_last ≡ results T moves bob_last)
    × (ledger T (run_moves T moves alice_last) ≡ ledger T (run_moves T moves bob_last))
run_moves-order_example = run_moves-order T moves alice_last bob_last T-IsFunded same_ledger
