-- ===== src/Registry/Expiry/Others.antt =====
-- What the end of a block of pallets/vanity-registry/src/lib.rs leaves alone: the block number, and the
-- locks of other pallets.
use vantiy_name_registry.Base.{ℕ, ◌≡◌, refl, ap, ◌∙◌, ◌≢◌, Option, List, [], ◌∷◌}
use vantiy_name_registry.Registry.{
  Config, OwnerOf, State, remove_commit, remove_owner, expired_commits, expire_commit,
  expire_commits, remove_expired_commits, expired_names, free_name, free_names,
  remove_expired_names, on_finalize,
}
use vantiy_name_registry.Registry.Funds.{lock_of-update_locked_fund_ne}
use vantiy_name_registry.Registry.Expiry.Commits.{block_number-expire_commits}
use vantiy_name_registry.Registry.Expiry.Names.{block_number-free_names}

module _ (T : Config) (i : List ℕ) (n : T.module_id ≢ i) (a : T.AccountId) where
  abbrev other_lock : State T → Option (ℕ × T.currency.Reasons)
  other_lock s = T.currency.lock_of i a s.locks

  other_lock-expire_commits :
      (cs : List (T.AccountId × T.Hash)) (s : State T)
      → other_lock (expire_commits T cs s) ≡ other_lock s
  unfolding expire_commits expire_commit remove_commit
  other_lock-expire_commits [] s = refl
  other_lock-expire_commits (c ∷ cs) s =
      other_lock-expire_commits cs (expire_commit T c s)
      ∙ lock_of-update_locked_fund_ne T i c.0 a (remove_commit T c.0 c.1 s)
          (λ q. n (ap (λ x. x.0) q))

  other_lock-free_names :
      (es : List (T.Name × OwnerOf T)) (s : State T) → other_lock (free_names T es s) ≡ other_lock s
  unfolding free_names free_name remove_owner
  other_lock-free_names [] s = refl
  other_lock-free_names (e ∷ es) s =
      other_lock-free_names es (free_name T e s)
      ∙ lock_of-update_locked_fund_ne T i e.1.id a (remove_owner T e.0 s) (λ q. n (ap (λ x. x.0) q))

  pub other_lock-on_finalize :
      (now : ℕ) (s : State T) → other_lock (on_finalize T now s) ≡ other_lock s
  unfolding on_finalize remove_expired_names remove_expired_commits
  other_lock-on_finalize now s =
      let t = expire_commits T (expired_commits T now s) s in
      other_lock-free_names (expired_names T now t) t
      ∙ other_lock-expire_commits (expired_commits T now s) s

pub block_number-on_finalize :
    (T : Config) (now : ℕ) (s : State T) → (on_finalize T now s).block_number ≡ s.block_number
unfolding on_finalize remove_expired_names remove_expired_commits
block_number-on_finalize T now s =
    let t = expire_commits T (expired_commits T now s) s in
    block_number-free_names T (expired_names T now t) t
    ∙ block_number-expire_commits T (expired_commits T now s) s
