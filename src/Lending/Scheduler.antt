-- ===== src/Lending/Scheduler.antt =====
-- LendingScheduler (backend/src/modules/lending/lending.scheduler.ts): a snapshot of each active
-- market, with the updates that are broadcast.
use soro_lend.Prelude.{ℕ, List, [], ◌∷◌}
use soro_lend.Text.{Text}
use soro_lend.Runtime.{Result, ok, err}
use soro_lend.Schema.{Asset, MarketSnapshot}
use soro_lend.Store.{Env, Db, save_snapshot}
use soro_lend.Indexer.Poll.{blank_snapshot}

pub record MarketUpdate : Type 0 where
  pub asset_code : Text
  pub timestamp : ℕ
  pub total_supply : Text
  pub total_borrow : Text
  pub borrow_rate : Text
  pub supply_rate : Text
  pub utilization_rate : Text

abbrev pub update_of : Asset → MarketSnapshot → MarketUpdate
update_of asset s = record {
  asset_code = asset.code;
  timestamp = s.snapshot_at;
  total_supply = s.total_supply;
  total_borrow = s.total_borrow;
  borrow_rate = s.borrow_rate;
  supply_rate = s.supply_rate;
  utilization_rate = s.utilization_rate;
}

module _ (E : Env) where
  -- What a round does after its `save`, with the rounds that follow.
  abbrev pub after :
      Asset
      → Result MarketSnapshot × Db E
      → (Db E → List MarketUpdate × Db E)
      → List MarketUpdate × Db E
  after asset (err e, db) rest = ([], db)
  after asset (ok s, db) rest = let (updates, db') = rest db in (update_of asset s ∷ updates, db')

  -- A refused snapshot ends the loop; what was broadcast before stays broadcast.
  unfoldable pub accrue_each : List Asset → Db E → List MarketUpdate × Db E
  accrue_each [] db = ([], db)
  accrue_each (asset ∷ assets) db =
      after asset (save_snapshot E (blank_snapshot asset) db) (accrue_each assets)

  unfoldable pub sync_interest_accrual : Db E → List MarketUpdate × Db E
  unfolding accrue_each
  sync_interest_accrual db = accrue_each (E.assets.find (λ a. a.is_active) db.assets) db
