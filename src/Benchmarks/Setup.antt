-- ===== src/Benchmarks/Setup.antt =====
-- What the set-up of a benchmark of pallets/vanity-registry/src/benchmarking.rs leads to: a commit, a
-- reveal of it, and a reveal that displaces another owner.
use vantiy_name_registry.Base.{
  ℕ, false, if◌then◌else◌, ◌≡◌, refl, sym, ap, ◌∙◌, ◌≢◌, Option, none, some,
}
use vantiy_name_registry.Frame.Dispatch.{Result, ok}
use vantiy_name_registry.Registry.{
  Config, LockPeriod, OwnerOf, Error, State, hash_of, reveal, insert_commit, insert_owner,
  is_discredited, remove_commit, update_locked_fund, deposit_event, name_owned, reveal_discredited,
}
use vantiy_name_registry.Registry.Counting.{commit_at}
use vantiy_name_registry.Registry.Commits
use vantiy_name_registry.Registry.Entries
use vantiy_name_registry.Registry.Calls.{owner_at, new_period, commit_lem, reveal_known}
use vantiy_name_registry.Registry.Chain.Protocol.{
  committed, commit_at-committed, owner_at-committed,
}
use vantiy_name_registry.Benchmarks.{
  Benchmarking, replicate, abcde, assert, ◌>>=◌, set_block_number, measured, commit_in, reveal_in,
}

-- The framework's part as documented: a signed origin is of its account, `account` and
-- `whitelisted_caller` differ, and the bytes decode to a name.
pub record IsSetUp (T : Config) (B : Benchmarking T) : Type 0 where
  pub signed_by : (a : T.AccountId) → T.ensure_signed (B.signed a) ≡ some a
  pub distinct : B.whitelisted_caller ≢ B.bob
  pub short_name : T.Name
  pub decode-abcde : B.decode abcde ≡ some short_name
  pub long_name : ℕ → T.Name
  pub decode-encode : (l : ℕ) → B.decode (B.encode (replicate l 66)) ≡ some (long_name l)

pub assert-true : {P : Type 0} → (d : Dec P) → P → assert d ≡ some tt
assert-true (yes _) p = refl
assert-true (no n) p = absurd (n p)

pub bind_some :
    {A B : Type 0} {o : Option A} {a : A} (f : A → Option B) → o ≡ some a → (o >>= f) ≡ f a
bind_some f e = ap (λ o. o >>= f) e

module _ (T : Config) where
  pub measured_ok :
      (r : Result Error (Unit {0}) × State T) (t : State T) (k : State T → Option (Unit {0}))
      → r ≡ (ok tt, t)
      → (measured T r >>= k) ≡ k t
  measured_ok r t k e = ap (λ x. measured T x >>= k) e

  abbrev pub owner_with : T.AccountId → T.Name → LockPeriod → OwnerOf T
  owner_with id name p = record { id = id; commit = hash_of T id name; lock_period = p }

  -- The state after a reveal that claims the name.
  abbrev pub claimed : T.AccountId → T.Name → LockPeriod → State T → State T
  claimed id name p t =
      deposit_event T (name_owned name id)
        (insert_owner T name (owner_with id name p) (remove_commit T id (hash_of T id name) t))

  pub reveal-claimed :
      (origin : T.Origin) (id : T.AccountId) (name : T.Name) (p : LockPeriod) (t : State T)
      → T.ensure_signed origin ≡ some id
      → commit_at T id (hash_of T id name) t ≡ some p
      → is_discredited T (owner_at T name t) p ≡ false
      → reveal T origin name t ≡ (ok tt, claimed id name p t)
  reveal-claimed origin id name p t by c e =
      let taken = remove_commit T id (hash_of T id name) t in
      reveal_known T origin id by name p t c
      ∙ ap
          (λ b. (
            ok tt,
            if b
                then deposit_event T (reveal_discredited name id) (update_locked_fund T id taken)
                else deposit_event T (name_owned name id)
                    (insert_owner T name (owner_with id name p) taken),
          ))
          e

  pub owner_at-claimed :
      (id : T.AccountId) (name : T.Name) (p : LockPeriod) (t : State T)
      → owner_at T name (claimed id name p t) ≡ some (owner_with id name p)
  owner_at-claimed id name p t =
      Entries.owner_at-insert_owner_self T name (owner_with id name p)
        (remove_commit T id (hash_of T id name) t)

  commit_at-claimed :
      (id x : T.AccountId) (name : T.Name) (h : T.Hash) (p : LockPeriod) (t : State T)
      → commit_at T x h (claimed id name p t)
        ≡ commit_at T x h (remove_commit T id (hash_of T id name) t)
  commit_at-claimed id x name h p t =
      Entries.commit_at-insert_owner T x h name (owner_with id name p)
        (remove_commit T id (hash_of T id name) t)

module _ (T : Config) (B : Benchmarking T) (v : IsSetUp T B) where
  module _ (n : ℕ) (id : T.AccountId) (name : T.Name) (s : State T) where
    commit_in-committed : commit_in T B n id name s ≡ committed T name id (set_block_number T n s)
    commit_in-committed =
        ap (λ x. x.1)
          (commit_lem T (B.signed id) id (v.signed_by id) (hash_of T id name)
            (set_block_number T n s))

    owner_at-commit_in : owner_at T name (commit_in T B n id name s) ≡ owner_at T name s
    owner_at-commit_in =
        ap (owner_at T name) commit_in-committed
        ∙ owner_at-committed T name id (set_block_number T n s)

    commit_at-commit_in :
        commit_at T id (hash_of T id name) (commit_in T B n id name s)
        ≡ some (new_period T (set_block_number T n s))
    commit_at-commit_in =
        ap (commit_at T id (hash_of T id name)) commit_in-committed
        ∙ commit_at-committed T name id (set_block_number T n s)

    commit_at-commit_in_ne :
        (x : T.AccountId) (h : T.Hash)
        → id ≢ x
        → commit_at T x h (commit_in T B n id name s) ≡ commit_at T x h s
    commit_at-commit_in_ne x h ne =
        let t = set_block_number T n s in
        ap (commit_at T x h) commit_in-committed
        ∙ Commits.commit_at-update_locked_fund T id x h
            (insert_commit T id (hash_of T id name) (new_period T t) t)
        ∙ Commits.commit_at-insert_commit_ne T id x (hash_of T id name) h (new_period T t) t
            (λ q. ne (ap (λ z. z.0) q))

    -- A commit and a reveal in a later block, of a name without an owner.
    reveal_in-claimed :
        (m : ℕ)
        → owner_at T name s ≡ none
        → reveal_in T B m id name (commit_in T B n id name s)
          ≡ claimed T id name
              (new_period T (set_block_number T n s))
              (set_block_number T m (commit_in T B n id name s))
    reveal_in-claimed m free =
        let p = new_period T (set_block_number T n s) in
        let t = set_block_number T m (commit_in T B n id name s) in
        ap (λ x. x.1)
          (reveal-claimed T (B.signed id) id name p t (v.signed_by id) commit_at-commit_in
            (ap (λ o. is_discredited T o p) (owner_at-commit_in ∙ free)))

  module _ (n m : ℕ) (id : T.AccountId) (name : T.Name) (s : State T)
      (free : owner_at T name s ≡ none) where
    pub owner_at-registered :
        owner_at T name (reveal_in T B m id name (commit_in T B n id name s))
        ≡ some (owner_with T id name (new_period T (set_block_number T n s)))
    owner_at-registered =
        let p = new_period T (set_block_number T n s) in
        ap (owner_at T name) (reveal_in-claimed n id name s m free)
        ∙ owner_at-claimed T id name p (set_block_number T m (commit_in T B n id name s))

    pub commit_at-registered :
        commit_at T id (hash_of T id name) (reveal_in T B m id name (commit_in T B n id name s))
        ≡ none
    commit_at-registered =
        let p = new_period T (set_block_number T n s) in
        let t = set_block_number T m (commit_in T B n id name s) in
        ap (commit_at T id (hash_of T id name)) (reveal_in-claimed n id name s m free)
        ∙ commit_at-claimed T id id name (hash_of T id name) p t
        ∙ Commits.commit_at-remove_commit_self T id (hash_of T id name) t

    commit_at-registered_ne :
        (x : T.AccountId) (h : T.Hash)
        → id ≢ x
        → commit_at T x h (reveal_in T B m id name (commit_in T B n id name s)) ≡ commit_at T x h s
    commit_at-registered_ne x h ne =
        let p = new_period T (set_block_number T n s) in
        let t = set_block_number T m (commit_in T B n id name s) in
        ap (commit_at T x h) (reveal_in-claimed n id name s m free)
        ∙ commit_at-claimed T id x name h p t
        ∙ Commits.commit_at-remove_commit_ne T id x (hash_of T id name) h t
            (λ q. ne (ap (λ z. z.0) q))
        ∙ commit_at-commit_in_ne n id name s x h ne

  module _ (l : ℕ) (s : State T) (free : owner_at T (v.long_name l) s ≡ none) where
    abbrev alice_committed : State T
    alice_committed = commit_in T B 1 B.whitelisted_caller (v.long_name l) s

    abbrev bob_revealed : State T
    bob_revealed =
        reveal_in T B 2 B.bob (v.long_name l)
          (commit_in T B 2 B.bob (v.long_name l) alice_committed)

    pub displaced_commit :
        commit_at T B.whitelisted_caller
          (hash_of T B.whitelisted_caller (v.long_name l))
          bob_revealed
        ≡ some (new_period T (set_block_number T 1 s))
    displaced_commit =
        let alice_id = B.whitelisted_caller in
        let name = v.long_name l in
        commit_at-registered_ne 2 2 B.bob name alice_committed
          (owner_at-commit_in 1 alice_id name s ∙ free) alice_id (hash_of T alice_id name)
          (λ q. v.distinct (sym q))
        ∙ commit_at-commit_in 1 alice_id name s

    pub displaced_owner :
        is_discredited T
          (owner_at T (v.long_name l) bob_revealed)
          (new_period T (set_block_number T 1 s))
        ≡ false
    displaced_owner =
        ap (λ o. is_discredited T o (new_period T (set_block_number T 1 s)))
          (owner_at-registered 2 2 B.bob (v.long_name l) alice_committed
            (owner_at-commit_in 1 B.whitelisted_caller (v.long_name l) s ∙ free))
