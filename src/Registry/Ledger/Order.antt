-- ===== src/Registry/Ledger/Order.antt =====
-- Runs of the registry of pallets/vanity-registry/src/lib.rs from two states that say the same, and
-- whose storage may iterate in two orders.
use vantiy_name_registry.Base.{suc, ◌≡◌, refl, ap, ap₂, ◌∙◌, List, [], ◌∷◌}
use vantiy_name_registry.Frame.Dispatch.{Result}
use vantiy_name_registry.Registry.{Config, Error, State, num_of_commits, dispatch, on_finalize}
use vantiy_name_registry.Registry.Funds.{IsFunded}
use vantiy_name_registry.Registry.Chain.{next_block}
use vantiy_name_registry.Registry.Chain.Waiting.{Move, call_of, end_of_block, run_moves}
use vantiy_name_registry.Registry.Ledger.{Ledger, ledger}
use vantiy_name_registry.Registry.Ledger.Calls.{ledger-dispatch}
use vantiy_name_registry.Registry.Ledger.Finalize.{ledger-on_finalize}

module _ (T : Config) where
  -- The results of the calls of a run.
  abbrev pub results : List (Move T) → State T → List (Result Error (Unit {0}))
  results [] s = []
  results (call_of origin q ∷ ms) s = let r = dispatch T origin q s in r.0 ∷ results ms r.1
  results (end_of_block ∷ ms) s = results ms (next_block T s)

  ledger-next_block :
      (s t : State T)
      → IsFunded T
      → ledger T s ≡ ledger T t
      → ledger T (next_block T s) ≡ ledger T (next_block T t)
  unfolding ledger next_block num_of_commits
  ledger-next_block s t v e =
      let now = ap (λ l. l.block_number) e in
      ap₂ (λ n (l : Ledger T). record l { block_number = suc n }) now
        (ledger-on_finalize T s t e s.block_number v ∙ ap (λ n. ledger T (on_finalize T n t)) now)

-- From two states that say the same, up to the order of their events, any run of calls and ends of
-- blocks gives every call the same result and ends in states that say the same, if the fund to lock is not
-- zero: nothing but the order of the events depends on the order in which storage is iterated.
pub run_moves-order :
    (T : Config) (ms : List (Move T)) (s t : State T)
    → IsFunded T
    → ledger T s ≡ ledger T t
    → (results T ms s ≡ results T ms t)
      × (ledger T (run_moves T ms s) ≡ ledger T (run_moves T ms t))
unfolding run_moves
run_moves-order T [] s t v e = (refl, e)
run_moves-order T (call_of origin q ∷ ms) s t v e =
    let here = ledger-dispatch T v s t e origin q in
    let rest = run_moves-order T ms (dispatch T origin q s).1 (dispatch T origin q t).1 v here.1 in
    (ap₂ (λ r rs. r ∷ rs) here.0 rest.0, rest.1)
run_moves-order T (end_of_block ∷ ms) s t v e =
    run_moves-order T ms (next_block T s) (next_block T t) v (ledger-next_block T s t v e)
