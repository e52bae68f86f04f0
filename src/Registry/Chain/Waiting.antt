-- ===== src/Registry/Chain/Waiting.antt =====
-- A commit that waits for its reveal while others call and blocks end
-- (pallets/vanity-registry/src/lib.rs).
use vantiy_name_registry.Base.{ℕ, ◌≤◌, ◌<◌, ◌≡◌, ap, ◌∙◌, ◌≢◌, some, List, [], ◌∷◌, arith}
use vantiy_name_registry.Registry.{Config, LockPeriod, State, hash_of, Request, dispatch}
use vantiy_name_registry.Registry.Blocks.{block_number-dispatch}
use vantiy_name_registry.Registry.FrontRunning.{IsFirst}
use vantiy_name_registry.Registry.FrontRunning.Wins.{IsFirst-dispatch}
use vantiy_name_registry.Registry.Expiry.Commits.{unexpired}
use vantiy_name_registry.Registry.Expiry.Finalize.{commit_at-on_finalize}
use vantiy_name_registry.Registry.Chain.{next_block}
use vantiy_name_registry.Registry.Chain.Periods.Reached.{
  commit_of_next_block, owner_of_next_block, block_number-next_block,
}

-- A call of somebody, or the end of a block.
pub data Move (T : Config) : Type 0 where
  call_of : T.Origin → Request T → Move T
  end_of_block : Move T

module _ (T : Config) where
  unfoldable pub run_moves : List (Move T) → State T → State T
  run_moves [] s = s
  run_moves (call_of origin q ∷ ms) s = run_moves ms (dispatch T origin q s).1
  run_moves (end_of_block ∷ ms) s = run_moves ms (next_block T s)

  -- None of the calls is signed by `who`.
  abbrev pub AreOtherMoves : T.AccountId → List (Move T) → Type 0
  AreOtherMoves who [] = Unit
  AreOtherMoves who (call_of origin q ∷ ms) =
      (T.ensure_signed origin ≢ some who) × AreOtherMoves who ms
  AreOtherMoves who (end_of_block ∷ ms) = AreOtherMoves who ms

  pub block_number-run_moves :
      (ms : List (Move T)) (s : State T) → s.block_number ≤ (run_moves ms s).block_number
  unfolding run_moves
  block_number-run_moves [] s = omega arith
  block_number-run_moves (call_of origin q ∷ ms) s = omega (
    arith,
    block_number-dispatch T origin q s,
    block_number-run_moves ms (dispatch T origin q s).1,
  )
  block_number-run_moves (end_of_block ∷ ms) s =
      omega (arith, block_number-next_block T s, block_number-run_moves ms (next_block T s))

  unexpired-late : (now : ℕ) (p : LockPeriod) → now < p.end → unexpired now (some p) ≡ some p
  unexpired-late now p late = ground arith

  -- The first commit is still the first in the next block, if it is still there.
  IsFirst-next_block :
      (name : T.Name) (who : T.AccountId) (p : LockPeriod) (s : State T)
      → s.block_number < p.end
      → IsFirst T name who p s
      → IsFirst T name who p (next_block T s)
  unfolding next_block
  IsFirst-next_block name who p s late h = record {
    pending =
        commit_at-on_finalize T s.block_number s who (hash_of T who name)
        ∙ ap (unexpired s.block_number) h.pending
        ∙ unexpired-late s.block_number p late;
    younger = λ x q n e. h.younger x q n (commit_of_next_block T s x (hash_of T x name) q e).0;
    owner_younger = λ o e. h.owner_younger o (owner_of_next_block T s name o e).0;
    past = omega (arith, h.past);
  }

  pub IsFirst-run_moves :
      (ms : List (Move T)) (name : T.Name) (who : T.AccountId) (p : LockPeriod) (s : State T)
      → AreOtherMoves who ms
      → (run_moves ms s).block_number ≤ p.end
      → IsFirst T name who p s
      → IsFirst T name who p (run_moves ms s)
  unfolding run_moves
  IsFirst-run_moves [] name who p s o late h = h
  IsFirst-run_moves (call_of origin q ∷ ms) name who p s o late h =
      IsFirst-run_moves ms name who p (dispatch T origin q s).1 o.1 late
        (IsFirst-dispatch T origin q name who p s o.0 h)
  IsFirst-run_moves (end_of_block ∷ ms) name who p s o late h =
      IsFirst-run_moves ms name who p (next_block T s) o late (
        IsFirst-next_block name who p s
          (omega
            (arith, late, block_number-next_block T s, block_number-run_moves ms (next_block T s)))
          h)
