-- ===== src/Benchmarks/Checks.antt =====
-- The checks of the four benchmarks of pallets/vanity-registry/src/benchmarking.rs.
use vantiy_name_registry.Base.{ℕ, ◌≡◌, refl, ap, ◌∙◌, none, some, ℕ_discrete}
use vantiy_name_registry.Registry.{
  Config, OwnerOf, State, hash_of, commit, reveal, renew, unregister, insert_owner, remove_owner,
  update_locked_fund, deposit_event, name_freed,
}
use vantiy_name_registry.Registry.Commits
use vantiy_name_registry.Registry.Entries
use vantiy_name_registry.Registry.Calls.{
  owner_at, new_end, new_period, commit_lem, renew_owned, unregister_owned,
}
use vantiy_name_registry.Registry.Chain.Protocol.{committed, commit_at-committed}
use vantiy_name_registry.Benchmarks.{
  Benchmarking, assert_none, assert_some, create_name, set_block_number, commit_in, reveal_in,
  commit_verify, reveal_verify, renew_verify, unregister_verify, commit_benchmark, reveal_benchmark,
  renew_benchmark, unregister_benchmark,
}
use vantiy_name_registry.Benchmarks.Setup.{
  IsSetUp, assert-true, bind_some, measured_ok, owner_with, claimed, reveal-claimed,
  owner_at-claimed, owner_at-registered, commit_at-registered, displaced_commit, displaced_owner,
}

module _ (T : Config) (B : Benchmarking T) (v : IsSetUp T B) where
  commit_checks : (s : State T) → commit_benchmark T B s ≡ some tt
  unfolding commit_benchmark commit_verify
  commit_checks s =
      let id = B.whitelisted_caller in
      let c = hash_of T id v.short_name in
      let t = set_block_number T 1 s in
      bind_some _ v.decode-abcde
      ∙ measured_ok T (commit T (B.signed id) c t) (committed T v.short_name id t)
          (commit_verify T id c) (commit_lem T (B.signed id) id (v.signed_by id) c t)
      ∙ bind_some _ (commit_at-committed T v.short_name id t)
      ∙ bind_some _ (assert-true (ℕ_discrete 1 1) refl)
      ∙ assert-true (ℕ_discrete (new_end T t) (new_end T t)) refl

  reveal_checks :
      (l : ℕ) (s : State T)
      → owner_at T (v.long_name l) s ≡ none
      → reveal_benchmark T B l s ≡ some tt
  unfolding reveal_benchmark reveal_verify create_name
  reveal_checks l s free =
      let id = B.whitelisted_caller in
      let name = v.long_name l in
      let c = hash_of T id name in
      let p = new_period T (set_block_number T 1 s) in
      let s₃ =
        reveal_in T B 2 B.bob name (commit_in T B 2 B.bob name (commit_in T B 1 id name s)) in
      bind_some _ (v.decode-encode l)
      ∙ measured_ok T (reveal T (B.signed id) name s₃) (claimed T id name p s₃)
          (reveal_verify T id name c)
          (reveal-claimed T (B.signed id) id name p s₃ (v.signed_by id)
            (displaced_commit T B v l s free) (displaced_owner T B v l s free))
      ∙ bind_some _ (owner_at-claimed T id name p s₃)
      ∙ bind_some _ (assert-true (T.hash_discrete c c) refl)
      ∙ assert-true (T.account_discrete id id) refl

  renew_checks : (s : State T) → owner_at T v.short_name s ≡ none → renew_benchmark T B s ≡ some tt
  unfolding renew_benchmark renew_verify
  renew_checks s free =
      let id = B.whitelisted_caller in
      let name = v.short_name in
      let t = set_block_number T 9 (reveal_in T B 8 id name (commit_in T B 7 id name s)) in
      let o = owner_with T id name (new_period T (set_block_number T 7 s)) in
      let o' : OwnerOf T = record o { lock_period = record { begin = 7; end = new_end T t } } in
      bind_some _ v.decode-abcde
      ∙ measured_ok T (renew T (B.signed id) name t) (insert_owner T name o' t)
          (renew_verify T name)
          (renew_owned T (B.signed id) id (v.signed_by id) name o t
            (owner_at-registered T B v 7 8 id name s free) refl)
      ∙ bind_some _ (Entries.owner_at-insert_owner_self T name o' t)
      ∙ assert-true (ℕ_discrete (new_end T t) (new_end T t)) refl

  -- What `unregister` leaves of the commit and of the owner.
  unregister-verifies :
      (id : T.AccountId) (name : T.Name) (s : State T)
      → owner_at T name s ≡ none
      → unregister_verify T id name (hash_of T id name) (
          deposit_event T (name_freed name) (
            update_locked_fund T id (
              remove_owner T name
                (set_block_number T 9 (reveal_in T B 8 id name (commit_in T B 7 id name s))))))
        ≡ some tt
  unfolding unregister_verify
  unregister-verifies id name s free =
      let c = hash_of T id name in
      let t = set_block_number T 9 (reveal_in T B 8 id name (commit_in T B 7 id name s)) in
      let gone = remove_owner T name t in
      bind_some _ (
        ap assert_none (
          Commits.commit_at-update_locked_fund T id id c gone
          ∙ Entries.commit_at-remove_owner T id c name t
          ∙ commit_at-registered T B v 7 8 id name s free))
      ∙ ap assert_none (
          Entries.owner_at-update_locked_fund T id name gone
          ∙ Entries.owner_at-remove_owner_self T name t)

  unregister_checks :
      (s : State T) → owner_at T v.short_name s ≡ none → unregister_benchmark T B s ≡ some tt
  unfolding unregister_benchmark
  unregister_checks s free =
      let id = B.whitelisted_caller in
      let name = v.short_name in
      let t = set_block_number T 9 (reveal_in T B 8 id name (commit_in T B 7 id name s)) in
      let o = owner_with T id name (new_period T (set_block_number T 7 s)) in
      let owned = owner_at-registered T B v 7 8 id name s free in
      bind_some _ v.decode-abcde
      ∙ bind_some _ (ap assert_some owned)
      ∙ measured_ok T (unregister T (B.signed id) name t)
          (deposit_event T (name_freed name) (update_locked_fund T id (remove_owner T name t)))
          (unregister_verify T id name (hash_of T id name))
          (unregister_owned T (B.signed id) id (v.signed_by id) name o t owned refl)
      ∙ unregister-verifies id name s free

-- Where nobody owns the names that the benchmarks register, every benchmark runs through, for a name
-- of any length in the benchmark of `reveal`: no decoding and no measured call fails, and every check
-- behind the call holds. The origins, the accounts and the decoding are as documented.
pub benchmarks-verify :
    (T : Config) (B : Benchmarking T) (v : IsSetUp T B) (l : ℕ) (s : State T)
    → owner_at T v.short_name s ≡ none
    → owner_at T (v.long_name l) s ≡ none
    → (commit_benchmark T B s ≡ some tt)
      × (reveal_benchmark T B l s ≡ some tt)
      × (renew_benchmark T B s ≡ some tt)
      × (unregister_benchmark T B s ≡ some tt)
benchmarks-verify T B v l s short long = (
  commit_checks T B v s,
  reveal_checks T B v l s long,
  renew_checks T B v s short,
  unregister_checks T B v s short,
)
