-- ===== src/Registry/Expiry/Finalize.antt =====
-- `on_finalize` of pallets/vanity-registry/src/lib.rs as a whole.
use mathlib.Core.List.{
  dec_mem, mem-append, mem-append_left, mem-append_right, append_assoc, Mem-prop,
}
use mathlib.Core.Logic.{if_pos, if_neg}
use mathlib.Core.Logic.Or
use vantiy_name_registry.Base.{
  ℕ, ◌≡◌, sym, ap, ap₂, subst, ◌∙◌, ◌⊎◌, inl, inr, List, ◌++◌, map, filter, Mem, ite,
}
use vantiy_name_registry.Registry.{
  Config, OwnerOf, EventOf, commit_expired, name_freed, State, num_of_commits, expired_commits,
  remove_expired_commits, expired_names, remove_expired_names, on_finalize, expire_commits,
  free_names, is_expired,
}
use vantiy_name_registry.Registry.Counting.{commit_at}
use vantiy_name_registry.Registry.Calls.{owner_at}
use vantiy_name_registry.Registry.Funds.{IsFunded, lock_at, lock_for}
use vantiy_name_registry.Registry.Expiry.Commits.{
  unexpired, commit_at-remove_expired_commits, events-remove_expired_commits, owners-expire_commits,
}
use vantiy_name_registry.Registry.Expiry.Names.{
  still_owned, owner_at-remove_expired_names, events-remove_expired_names, lock_periods-free_names,
}
use vantiy_name_registry.Registry.Expiry.Locks.{
  IsSettled-expire_commits, IsSettled-free_names, lock_at-expire_commits_ne, lock_at-free_names_ne,
}

module _ (T : Config) (now : ℕ) (s : State T) where
  owners-remove_expired_commits : (remove_expired_commits T now s).owners ≡ s.owners
  unfolding remove_expired_commits
  owners-remove_expired_commits = owners-expire_commits T (expired_commits T now s) s

  pub expired_names-remove_expired_commits :
      expired_names T now (remove_expired_commits T now s) ≡ expired_names T now s
  unfolding expired_names
  expired_names-remove_expired_commits =
      ap (λ m. filter (λ e. is_expired T now e.1.lock_period) (T.owners.iter m))
        owners-remove_expired_commits

pub commit_at-on_finalize :
    (T : Config) (now : ℕ) (s : State T) (a : T.AccountId) (h : T.Hash)
    → commit_at T a h (on_finalize T now s) ≡ unexpired now (commit_at T a h s)
unfolding on_finalize remove_expired_names
commit_at-on_finalize T now s a h =
    let t = remove_expired_commits T now s in
    ap (T.lock_periods.get a h) (lock_periods-free_names T (expired_names T now t) t)
    ∙ commit_at-remove_expired_commits T now a h s

pub owner_at-on_finalize :
    (T : Config) (now : ℕ) (s : State T) (name : T.Name)
    → owner_at T name (on_finalize T now s) ≡ still_owned T now (owner_at T name s)
unfolding on_finalize
owner_at-on_finalize T now s name =
    owner_at-remove_expired_names T now name (remove_expired_commits T now s)
    ∙ ap (λ m. still_owned T now (T.owners.get name m)) (owners-remove_expired_commits T now s)

-- At the end of block `now` the commits that are left are those whose lock period ends later, and the
-- names that are still owned are those whose lock period ends later; they are left unchanged.
pub on_finalize_expires :
    (T : Config) (now : ℕ) (s : State T) (a : T.AccountId) (h : T.Hash) (name : T.Name)
    → (commit_at T a h (on_finalize T now s) ≡ unexpired now (commit_at T a h s))
      × (owner_at T name (on_finalize T now s) ≡ still_owned T now (owner_at T name s))
on_finalize_expires T now s a h name =
    (commit_at-on_finalize T now s a h, owner_at-on_finalize T now s name)

-- Each expired commit and then each expired name is announced once, in the order of the two
-- iterations, behind the events of the block.
pub events-on_finalize :
    (T : Config) (now : ℕ) (s : State T)
    → (on_finalize T now s).events
      ≡ s.events
        ++ (map (λ c. commit_expired c.1 c.0) (expired_commits T now s)
            ++ map (λ e. name_freed e.0) (expired_names T now s))
unfolding on_finalize
events-on_finalize T now s =
    events-remove_expired_names T now (remove_expired_commits T now s)
    ∙ ap₂ (λ (l : List (EventOf T)) es. l ++ map (λ e. name_freed e.0) es)
        (events-remove_expired_commits T now s) (expired_names-remove_expired_commits T now s)
    ∙ append_assoc s.events _ _

-- The accounts of which a commit or a name runs out in block `now`.
abbrev pub affected : (T : Config) → ℕ → State T → List T.AccountId
affected T now s =
    map (λ c. c.0) (expired_commits T now s) ++ map (λ e. e.1.id) (expired_names T now s)

-- The two loops over any two lists.
lock_at-loops :
    (T : Config) (cs : List (T.AccountId × T.Hash)) (es : List (T.Name × OwnerOf T))
    (a : T.AccountId) (s : State T)
    → IsFunded T
    → let t = free_names T es (expire_commits T cs s) in
      lock_at T a t
      ≡ ite
          (dec_mem T.account_discrete a (map (λ c. c.0) cs ++ map (λ e. e.1.id) es))
          (lock_for T (num_of_commits T a t))
          (lock_at T a s)
lock_at-loops T cs es a s v =
    let t = expire_commits T cs s in
    elim (dec_mem T.account_discrete a (map (λ c. c.0) cs ++ map (λ e. e.1.id) es)) [
      | yes m ↦ rw (if_pos _ m) (IsSettled-free_names T v es a t (named m))
      | no n ↦ rw (if_neg _ n) (
          lock_at-free_names_ne T v es a t (λ k. n (mem-append_right (map (λ c. c.0) cs) k))
          ∙ lock_at-expire_commits_ne T v cs a s
              (λ k. n (mem-append_left (map (λ e. e.1.id) es) k)))
    ]
  where
    named :
        Mem a (map (λ c. c.0) cs ++ map (λ e. e.1.id) es)
        → Mem a (map (λ e. e.1.id) es)
          ⊎ (lock_at T a (expire_commits T cs s)
              ≡ lock_for T (num_of_commits T a (expire_commits T cs s)))
    named m = elim (dec_mem T.account_discrete a (map (λ e. e.1.id) es)) [
      | yes k ↦ inl k
      | no n ↦ inr (
          IsSettled-expire_commits T v cs a s
            (inl (Or.elim Mem-prop (mem-append.0 m) (λ k. k) (λ k. absurd (n k)))))
    ]

-- An account of which a commit or a name has run out gets the lock for the commits that it has left, if
-- the fund to lock is not zero; the lock of every other account stays.
pub lock_at-on_finalize :
    (T : Config) (now : ℕ) (s : State T) (a : T.AccountId)
    → IsFunded T
    → lock_at T a (on_finalize T now s)
      ≡ ite
          (dec_mem T.account_discrete a (affected T now s))
          (lock_for T (num_of_commits T a (on_finalize T now s)))
          (lock_at T a s)
unfolding on_finalize remove_expired_names remove_expired_commits
lock_at-on_finalize T now s a v =
    let cs = expired_commits T now s in
    let same = expired_names-remove_expired_commits T now s in
    subst
      (λ (es : List (T.Name × OwnerOf T)).
        lock_at T a (free_names T es (expire_commits T cs s))
        ≡ ite
            (dec_mem T.account_discrete a
              (map (λ c. c.0) cs ++ map (λ e. e.1.id) (expired_names T now s)))
            (lock_for T (num_of_commits T a (free_names T es (expire_commits T cs s))))
            (lock_at T a s))
      (sym same) (lock_at-loops T cs (expired_names T now s) a s v)
