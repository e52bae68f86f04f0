-- ===== src/Registry/Ledger.antt =====
-- What the states of pallets/vanity-registry/src/lib.rs hold, with the events in no order.
pub mod Calls
pub mod Finalize
pub mod Order
use mathlib.Mathlib.Data.Multiset.{Multiset, of_list}
use vantiy_name_registry.Base.{ℕ, Option, List}
use vantiy_name_registry.Registry.{Config, LockPeriod, OwnerOf, EventOf, State}
use vantiy_name_registry.Registry.Spec.{View, view}

pub record Ledger (T : Config) : Type 0 where
  pub block_number : ℕ
  pub commits : T.AccountId × T.Hash → Option LockPeriod
  pub count : T.AccountId → ℕ
  pub owners : T.Name → Option (OwnerOf T)
  pub locks : List ℕ × T.AccountId → Option (ℕ × T.currency.Reasons)
  pub events : Multiset (EventOf T)

module _ (T : Config) where
  abbrev pub ledger_of : View T → Ledger T
  ledger_of v = record {
    block_number = v.block_number;
    commits = v.commits;
    count = v.count;
    owners = v.owners;
    locks = v.locks;
    events = of_list v.events;
  }

  unfoldable pub ledger : State T → Ledger T
  unfolding view
  ledger s = ledger_of (view T s)
