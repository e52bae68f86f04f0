-- ===== src/Registry/Chain/Registration.antt =====
-- The entry of a name from the commit to the end of its period (pallets/vanity-registry/src/lib.rs).
use vantiy_name_registry.Base.{◌≤◌, ◌<◌, ◌≡◌, ap, ◌∙◌, some, List, arith}
use vantiy_name_registry.Registry.{
  Config, LockPeriod, State, reveal_call, dispatch, commit, reveal, hash_of, remove_commit,
}
use vantiy_name_registry.Registry.Entries.{owner_at-insert_owner_self}
use vantiy_name_registry.Registry.Blocks.{block_number-dispatch}
use vantiy_name_registry.Registry.Calls.{owner_at, new_end, new_period, reveal_known}
use vantiy_name_registry.Registry.Transitions.{revealed_owner}
use vantiy_name_registry.Registry.FrontRunning.{IsFirst}
use vantiy_name_registry.Registry.FrontRunning.Wins.{First-wins, reveal-IsSafe}
use vantiy_name_registry.Registry.Chain.{next_block}
use vantiy_name_registry.Registry.Chain.Waiting.{
  Move, run_moves, AreOtherMoves, block_number-run_moves,
}
use vantiy_name_registry.Registry.Chain.Protocol.{IsFree, IsFirst-waiting}
use vantiy_name_registry.Registry.Chain.Renewal.{LeaveAlone, owner_at-run_moves}

module _ (T : Config) (origin : T.Origin) (name : T.Name) (who : T.AccountId)
    (by : T.ensure_signed origin ≡ some who) where
  -- The reveal of the first commit turns it into the entry of the name.
  owner_at-reveal :
      (p : LockPeriod) (s : State T)
      → IsFirst T name who p s
      → owner_at T name (reveal T origin name s).1 ≡ some (revealed_owner T who name p)
  owner_at-reveal p s h =
      ap (λ r. owner_at T name r.1) (reveal_known T origin who by name p s h.pending)
      ∙ rw (First-wins T name who p s h) (
          owner_at-insert_owner_self T name (revealed_owner T who name p)
            (remove_commit T who (hash_of T who name) s))

  block_number-reveal : (s : State T) → (reveal T origin name s).1.block_number ≡ s.block_number
  unfolding dispatch
  block_number-reveal s = block_number-dispatch T origin (reveal_call name) s

  owner_at-revealed :
      (after : List (Move T)) (p : LockPeriod) (s : State T)
      → IsFirst T name who p s
      → LeaveAlone T name who after
      → (run_moves T after (reveal T origin name s).1).block_number ≤ p.end
      → owner_at T name (run_moves T after (reveal T origin name s).1)
        ≡ some (revealed_owner T who name p)
  owner_at-revealed after p s h alone late =
      owner_at-run_moves T name who p.begin after (revealed_owner T who name p)
        (reveal T origin name s).1 alone late (reveal-IsSafe T origin name who p s by h)
        (owner_at-reveal p s h)

-- `who` commits in `s`, waits, reveals, and more happens.
abbrev pub registered :
    (T : Config) (waiting after : List (Move T)) (origin : T.Origin) (name : T.Name)
    (who : T.AccountId)
    → State T
    → State T
registered T waiting after origin name who s =
    let t = run_moves T waiting (next_block T (commit T origin (hash_of T who name) s).1) in
    run_moves T after (reveal T origin name t).1

-- Someone commits to a name that is free, in a block whose register period does not wrap, and reveals
-- it in a later block, behind any calls of others in any of the blocks. Then up to the end of the register
-- period that began with the commit, under any calls in any of the blocks in which they do not renew the
-- name or give it up, the entry of the name is just theirs: their account, their commit, and that period.
pub register-keeps :
    (T : Config) (waiting after : List (Move T)) (origin : T.Origin) (name : T.Name)
    (who : T.AccountId) (s : State T)
    → IsFree T name who s
    → s.block_number < new_end T s
    → T.ensure_signed origin ≡ some who
    → AreOtherMoves T who waiting
    → LeaveAlone T name who after
    → (registered T waiting after origin name who s).block_number ≤ new_end T s
    → owner_at T name (registered T waiting after origin name who s)
      ≡ some (revealed_owner T who name (new_period T s))
register-keeps T waiting after origin name who s free late by others alone in_time =
    let t = run_moves T waiting (next_block T (commit T origin (hash_of T who name) s).1) in
    let r = (reveal T origin name t).1 in
    let first = IsFirst-waiting T waiting origin name who s free late by others (
      omega (
        arith,
        in_time,
        block_number-run_moves T after r,
        block_number-reveal T origin name who by t,
      )) in
    owner_at-revealed T origin name who by after (new_period T s) t first alone in_time
