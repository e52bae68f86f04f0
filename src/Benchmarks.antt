-- ===== src/Benchmarks.antt =====
-- pallets/vanity-registry/src/benchmarking.rs: the four benchmarks of the pallet, each with its set-up,
-- the call that is measured, and its check. `none` is a panic: of an `unwrap`, of an `assert`, or of the
-- framework where the measured call fails.
pub mod Setup
pub mod Checks
mod Tests
use vantiy_name_registry.Base.{ℕ, zero, suc, ◌≡◌, Option, none, some, List, [], ◌∷◌, ℕ_discrete}
use vantiy_name_registry.Base.Words.{wrapping_add}
use vantiy_name_registry.Frame.Dispatch.{Result, ok, err}
use vantiy_name_registry.Registry.{
  Config, LockPeriod, OwnerOf, Error, State, hash_of, commit, reveal, renew, unregister,
}

-- What the benchmarks take of the framework: two accounts, an origin that an account signs, the
-- encoding of bytes and the decoding of a name.
pub record Benchmarking (T : Config) : Type 0 where
  pub whitelisted_caller : T.AccountId
  -- `account("bob", 0, 0)`.
  pub bob : T.AccountId
  pub signed : T.AccountId → T.Origin
  pub encode : List ℕ → List ℕ
  pub decode : List ℕ → Option T.Name

abbrev pub replicate : ℕ → ℕ → List ℕ
replicate zero x = []
replicate (suc n) x = x ∷ replicate n x

abbrev pub abcde : List ℕ
abcde = 4 ∷ 66 ∷ 67 ∷ 68 ∷ 69 ∷ []

infixl 5 ◌>>=◌ ◌>>◌
abbrev pub ◌>>=◌ : {A B : Type 0} → Option A → (A → Option B) → Option B
none >>= f = none
some a >>= f = f a

abbrev pub ◌>>◌ : {B : Type 0} → Option (Unit {0}) → Option B → Option B
m >> k = m >>= λ _. k

-- `assert!` and `assert_eq!` on what can be decided.
abbrev pub assert : {P : Type 0} → Dec P → Option (Unit {0})
assert (yes _) = some tt
assert (no _) = none

abbrev pub assert_none : {A : Type 0} → Option A → Option (Unit {0})
assert_none none = some tt
assert_none (some _) = none

abbrev pub assert_some : {A : Type 0} → Option A → Option (Unit {0})
assert_some none = none
assert_some (some _) = some tt

module _ (T : Config) where
  -- `System::<T>::set_block_number`.
  abbrev pub set_block_number : ℕ → State T → State T
  set_block_number n s = record s { block_number = n }

  -- The state behind the measured call.
  abbrev pub measured : Result Error (Unit {0}) × State T → Option (State T)
  measured (ok _, s) = some s
  measured (err _, s) = none

  pub commit_verify : T.AccountId → T.Hash → State T → Option (Unit {0})
  commit_verify alice_id c s = do
    lock_period ← T.lock_periods.get alice_id c s.lock_periods
    assert (ℕ_discrete lock_period.begin 1)
    assert (ℕ_discrete lock_period.end (wrapping_add T.block_number_bits 1 T.register_period))

  pub reveal_verify : T.AccountId → T.Name → T.Hash → State T → Option (Unit {0})
  reveal_verify alice_id alice_name alice_commit s = do
    owner ← T.owners.get alice_name s.owners
    assert (T.hash_discrete owner.commit alice_commit)
    assert (T.account_discrete owner.id alice_id)

  pub renew_verify : T.Name → State T → Option (Unit {0})
  renew_verify name s = do
    owner ← T.owners.get name s.owners
    assert (ℕ_discrete owner.lock_period.end (wrapping_add T.block_number_bits 9 T.register_period))

  pub unregister_verify : T.AccountId → T.Name → T.Hash → State T → Option (Unit {0})
  unregister_verify id name c s = do
    assert_none (T.lock_periods.get id c s.lock_periods)
    assert_none (T.owners.get name s.owners)

module _ (T : Config) (B : Benchmarking T) where
  pub create_name : ℕ → Option T.Name
  create_name len = B.decode (B.encode (replicate len 66))

  abbrev pub commit_in : ℕ → T.AccountId → T.Name → State T → State T
  commit_in n id name s = (commit T (B.signed id) (hash_of T id name) (set_block_number T n s)).1

  abbrev pub reveal_in : ℕ → T.AccountId → T.Name → State T → State T
  reveal_in n id name s = (reveal T (B.signed id) name (set_block_number T n s)).1

  pub commit_benchmark : State T → Option (Unit {0})
  unfolding commit_verify
  commit_benchmark s = do
    let alice_id = B.whitelisted_caller
    name ← B.decode abcde
    let c = hash_of T alice_id name
    s' ← measured T (commit T (B.signed alice_id) c (set_block_number T 1 s))
    commit_verify T alice_id c s'

  pub reveal_benchmark : (l : ℕ) → State T → Option (Unit {0})
  unfolding create_name reveal_verify
  reveal_benchmark l s = do
    let alice_id = B.whitelisted_caller
    alice_name ← create_name l
    let alice_commit = hash_of T alice_id alice_name
    let s₁ = commit_in 1 alice_id alice_name s
    let s₂ = commit_in 2 B.bob alice_name s₁
    let s₃ = reveal_in 2 B.bob alice_name s₂
    s' ← measured T (reveal T (B.signed alice_id) alice_name s₃)
    reveal_verify T alice_id alice_name alice_commit s'

  pub renew_benchmark : State T → Option (Unit {0})
  unfolding renew_verify
  renew_benchmark s = do
    let id = B.whitelisted_caller
    name ← B.decode abcde
    let s₁ = reveal_in 8 id name (commit_in 7 id name s)
    s' ← measured T (renew T (B.signed id) name (set_block_number T 9 s₁))
    renew_verify T name s'

  pub unregister_benchmark : State T → Option (Unit {0})
  unfolding unregister_verify
  unregister_benchmark s = do
    let id = B.whitelisted_caller
    name ← B.decode abcde
    let s₁ = reveal_in 8 id name (commit_in 7 id name s)
    assert_some (T.owners.get name s₁.owners)
    s' ← measured T (unregister T (B.signed id) name (set_block_number T 9 s₁))
    unregister_verify T id name (hash_of T id name) s'
