-- ===== src/Registry/Blocks.antt =====
-- No call of pallets/vanity-registry/src/lib.rs changes the block number.
use vantiy_name_registry.Base.{ℕ, ◌≡◌, refl, ap, ◌∙◌}
use vantiy_name_registry.Registry.{
  Config, State, hash_of, Request, dispatch, insert_commit, remove_commit, insert_owner,
  remove_owner,
}
use vantiy_name_registry.Registry.Entries.{block_number-update_locked_fund}
use vantiy_name_registry.Registry.Calls.{new_period}
use vantiy_name_registry.Registry.Transitions.{
  Transition, commit_made, name_claimed, reveal_lost, name_renewed, name_given_up,
  dispatch_preserves,
}

module _ (T : Config) where
  abbrev block : State T → ℕ
  block s = s.block_number

  block-Transition :
      (who : T.AccountId) (q : Request T) (s t : State T)
      → Transition T who s t q
      → block t ≡ block s
  unfolding insert_commit remove_commit insert_owner remove_owner
  block-Transition who q s t (commit_made {hash} e) =
      ap block e
      ∙ block_number-update_locked_fund T who (insert_commit T who hash (new_period T s) s)
  block-Transition who q s t (name_claimed c d e) = ap block e
  block-Transition who q s t (reveal_lost {name} c d e) =
      ap block e
      ∙ block_number-update_locked_fund T who (remove_commit T who (hash_of T who name) s)
  block-Transition who q s t (name_renewed c d e) = ap block e
  block-Transition who q s t (name_given_up {name} c d e) =
      ap block e ∙ block_number-update_locked_fund T who (remove_owner T name s)

pub block_number-dispatch :
    (T : Config) (origin : T.Origin) (q : Request T) (s : State T)
    → (dispatch T origin q s).1.block_number ≡ s.block_number
block_number-dispatch T origin q s =
    dispatch_preserves T origin q s (λ t. t.block_number ≡ s.block_number) refl
      (λ who t by step. block-Transition T who q s t step)
