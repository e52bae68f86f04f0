-- ===== src/Registry/Chain/Keeping.antt =====
-- A name and its holder at the end of a block (pallets/vanity-registry/src/lib.rs).
use vantiy_name_registry.Base.{ℕ, ◌<◌, ◌≡◌, sym, ap, ◌∙◌, some, arith}
use vantiy_name_registry.Registry.{Config, OwnerOf, State, hash_of}
use vantiy_name_registry.Registry.Calls.{owner_at}
use vantiy_name_registry.Registry.Claims.{holder, IsSafe}
use vantiy_name_registry.Registry.Expiry.Names.{still_owned}
use vantiy_name_registry.Registry.Expiry.Finalize.{owner_at-on_finalize}
use vantiy_name_registry.Registry.Chain.{next_block}
use vantiy_name_registry.Registry.Chain.Periods.Reached.{
  commit_of_next_block, block_number-next_block,
}

module _ (T : Config) where
  pub owner_at-next_block :
      (name : T.Name) (s : State T)
      → owner_at T name (next_block T s) ≡ still_owned T s.block_number (owner_at T name s)
  unfolding next_block
  owner_at-next_block name s = owner_at-on_finalize T s.block_number s name

  pub still_owned-late :
      (now : ℕ) (o : OwnerOf T) → now < o.lock_period.end → still_owned T now (some o) ≡ some o
  still_owned-late now o late = ground arith

-- A name that is safe with its holder, and whose lock period ends behind the block, is safe with the
-- holder in the next block.
pub IsSafe-next_block :
    (T : Config) (name : T.Name) (who : T.AccountId) (b : ℕ) (o : OwnerOf T) (s : State T)
    → owner_at T name s ≡ some o
    → s.block_number < o.lock_period.end
    → IsSafe T name who b s
    → IsSafe T name who b (next_block T s)
IsSafe-next_block T name who b o s e late h = record {
  held =
      ap (holder T) (
        owner_at-next_block T name s
        ∙ ap (still_owned T s.block_number) e
        ∙ still_owned-late T s.block_number o late
        ∙ sym e)
      ∙ h.held;
  oldest = λ x p q. h.oldest x p (commit_of_next_block T s x (hash_of T x name) p q).0;
  past = omega (arith, h.past, block_number-next_block T s);
}
