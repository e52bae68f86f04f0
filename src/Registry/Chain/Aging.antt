-- ===== src/Registry/Chain/Aging.antt =====
-- Names whose claim is as old as the register period (pallets/vanity-registry/src/lib.rs).
use vantiy_name_registry.Base.{◌+◌, ◌≤◌, ◌≡◌, ap, some, List, arith}
use vantiy_name_registry.Registry.{Config, OwnerOf, State, hash_of}
use vantiy_name_registry.Registry.Calls.{owner_at}
use vantiy_name_registry.Registry.Claims.{holder, IsSafe}
use vantiy_name_registry.Registry.Chain.{Reach}
use vantiy_name_registry.Registry.Chain.Periods.{Fits, IsWellFormed}
use vantiy_name_registry.Registry.Chain.Periods.Reached.{Reach-IsWellFormed}
use vantiy_name_registry.Registry.Chain.Waiting.{Move, run_moves}
use vantiy_name_registry.Registry.Chain.Renewal.{LeaveAlone, owner_at-run_moves}

module _ (T : Config) where
  IsSafe-aged :
      (name : T.Name) (o : OwnerOf T) (s : State T)
      → IsWellFormed T s
      → owner_at T name s ≡ some o
      → o.lock_period.begin + T.register_period ≤ s.block_number
      → IsSafe T name o.id o.lock_period.begin s
  IsSafe-aged name o s w e aged = record {
    held = ap (holder T) e;
    oldest = λ x p c. omega (
      arith,
      aged,
      w.commits_exact x (hash_of T x name) p c,
      (w.commits_current x (hash_of T x name) p c).open_yet,
    );
    past = omega (arith, aged);
  }

-- In a state that a chain reaches before its block numbers wrap, nobody can take a name any more whose
-- claim began at least a register period ago: whatever is committed, revealed, renewed or given up in this
-- block and the next ones, the entry of the name stays as it is up to the end of its period, if its owner
-- does not renew it or give it up.
pub aged-keeps :
    (T : Config) {s : State T} (ms : List (Move T)) (name : T.Name) (o : OwnerOf T)
    → Reach T s
    → Fits T s
    → owner_at T name s ≡ some o
    → o.lock_period.begin + T.register_period ≤ s.block_number
    → LeaveAlone T name o.id ms
    → (run_moves T ms s).block_number ≤ o.lock_period.end
    → owner_at T name (run_moves T ms s) ≡ some o
aged-keeps T {s} ms name o r f e aged alone late =
    owner_at-run_moves T name o.id o.lock_period.begin ms o s alone late
      (IsSafe-aged T name o s (Reach-IsWellFormed T r f) e aged) e
