-- ===== src/Registry/Spec.antt =====
-- The registry without its storage: what pallets/vanity-registry/src/lib.rs promises of each call,
-- on maps that are functions. A claim wins over the owner if it is strictly older.
pub mod Views
pub mod Refines
pub mod Lifecycle
use vantiy_name_registry.Base.{
  list_discrete, ℕ, suc, ◌-◌, ◌≡◌, Bool, true, false, Option, none, some, List, [], ◌∷◌, ◌++◌, ite,
  ltb, if◌then◌else◌, ℕ_discrete,
}
use vantiy_name_registry.Base.Words.{wrapping_add}
use vantiy_name_registry.Frame.Maps.{pair_discrete}
use vantiy_name_registry.Frame.Dispatch.{DispatchError, bad_origin, pallet_error, Result, ok, err}
use vantiy_name_registry.Registry.{
  Config, LockPeriod, Owner, OwnerOf, EventOf, Error, name_not_found, name_not_owned,
  commit_not_found, name_owned, name_freed, reveal_discredited, State, num_of_commits, hash_of,
  Request, commit_call, reveal_call, renew_call, unregister_call,
}
use vantiy_name_registry.Registry.Funds.{lock_for}

-- A function changed at one key.
abbrev pub put : {K V : Type 0} → Discrete K → K → V → (K → V) → K → V
put dec k v f j = ite (dec k j) v (f j)

unfoldable pub bytes_discrete : Discrete (List ℕ)
bytes_discrete = list_discrete ℕ_discrete

pub record View (T : Config) : Type 0 where
  pub block_number : ℕ
  pub commits : T.AccountId × T.Hash → Option LockPeriod
  -- How many commits an account has.
  pub count : T.AccountId → ℕ
  pub owners : T.Name → Option (OwnerOf T)
  pub locks : List ℕ × T.AccountId → Option (ℕ × T.currency.Reasons)
  pub events : List (EventOf T)

module _ (T : Config) where
  -- What a state holds, whatever its storage looks like.
  unfoldable pub view : State T → View T
  view s = record {
    block_number = s.block_number;
    commits = λ k. T.lock_periods.get k.0 k.1 s.lock_periods;
    count = λ id. num_of_commits T id s;
    owners = λ name. T.owners.get name s.owners;
    locks = λ k. T.currency.lock_of k.0 k.1 s.locks;
    events = s.events;
  }

  unfoldable pub commit_key_discrete : Discrete (T.AccountId × T.Hash)
  commit_key_discrete = pair_discrete T.account_discrete T.hash_discrete

  unfoldable pub lock_key_discrete : Discrete (List ℕ × T.AccountId)
  lock_key_discrete = pair_discrete bytes_discrete T.account_discrete

  -- The lock of an account becomes what its commits call for.
  abbrev pub settle : T.AccountId → View T → View T
  settle who v = record v {
    locks = put lock_key_discrete (T.module_id, who) (lock_for T (v.count who)) v.locks;
  }

  abbrev pub announce : EventOf T → View T → View T
  announce e v = record v { events = v.events ++ e ∷ [] }

  abbrev pub grown : Option LockPeriod → ℕ → ℕ
  grown none n = suc n
  grown (some _) n = n

  abbrev pub add_commit : T.AccountId → T.Hash → LockPeriod → View T → View T
  add_commit who hash p v = record v {
    commits = put commit_key_discrete (who, hash) (some p) v.commits;
    count = put T.account_discrete who (grown (v.commits (who, hash)) (v.count who)) v.count;
  }

  abbrev pub drop_commit : T.AccountId → T.Hash → View T → View T
  drop_commit who hash v = record v {
    commits = put commit_key_discrete (who, hash) none v.commits;
    count = put T.account_discrete who (v.count who - 1) v.count;
  }

  abbrev pub assign : T.Name → Option (OwnerOf T) → View T → View T
  assign name o v = record v { owners = put T.name_discrete name o v.owners }

  abbrev pub later_end : View T → ℕ
  later_end v = wrapping_add T.block_number_bits v.block_number T.register_period

  abbrev pub Outcome : Type 0
  Outcome = Result Error (Unit {0}) × View T

  unfoldable pub spec_commit : T.AccountId → T.Hash → View T → Outcome
  spec_commit who hash v = (
    ok tt,
    settle who (add_commit who hash (record { begin = v.block_number; end = later_end v }) v),
  )

  -- A claim beats no owner, and an owner whose claim is younger.
  abbrev pub beats : LockPeriod → Option (OwnerOf T) → Bool
  beats p none = true
  beats p (some o) = ltb p.begin o.lock_period.begin

  abbrev pub claim : T.AccountId → T.Name → LockPeriod → View T → View T
  claim who name p v =
      if beats p (v.owners name)
      then announce (name_owned name who)
          (assign name (some (record { id = who; commit = hash_of T who name; lock_period = p })) v)
      else announce (reveal_discredited name who) (settle who v)

  abbrev pub claim_with : T.AccountId → T.Name → Option LockPeriod → View T → Outcome
  claim_with who name none v = (err (pallet_error commit_not_found), v)
  claim_with who name (some p) v =
      (ok tt, claim who name p (drop_commit who (hash_of T who name) v))

  unfoldable pub spec_reveal : T.AccountId → T.Name → View T → Outcome
  spec_reveal who name v = claim_with who name (v.commits (who, hash_of T who name)) v

  -- What only the owner of a name may do.
  abbrev pub as_owner : T.AccountId → Option (OwnerOf T) → (OwnerOf T → View T) → View T → Outcome
  as_owner who none act v = (err (pallet_error name_not_found), v)
  as_owner who (some o) act v =
      ite (T.account_discrete o.id who) (ok tt, act o) (err (pallet_error name_not_owned), v)

  unfoldable pub spec_renew : T.AccountId → T.Name → View T → Outcome
  spec_renew who name v =
      as_owner who (v.owners name)
        (λ o.
          assign name
            (some (record o {
              lock_period = record { begin = o.lock_period.begin; end = later_end v };
            }))
            v)
        v

  unfoldable pub spec_unregister : T.AccountId → T.Name → View T → Outcome
  spec_unregister who name v =
      as_owner who (v.owners name)
        (λ _. announce (name_freed name) (settle who (assign name none v))) v

  unfoldable pub spec_signed : T.AccountId → Request T → View T → Outcome
  unfolding spec_commit spec_reveal spec_renew spec_unregister
  spec_signed who (commit_call hash) v = spec_commit who hash v
  spec_signed who (reveal_call name) v = spec_reveal who name v
  spec_signed who (renew_call name) v = spec_renew who name v
  spec_signed who (unregister_call name) v = spec_unregister who name v

  unfoldable pub spec_dispatch : Option T.AccountId → Request T → View T → Outcome
  unfolding spec_signed
  spec_dispatch none q v = (err bad_origin, v)
  spec_dispatch (some who) q v = spec_signed who q v
