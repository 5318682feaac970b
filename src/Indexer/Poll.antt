-- ===== src/Indexer/Poll.antt =====
-- StellarIndexerService (backend/src/modules/indexer/stellar-indexer.service.ts).
use soro_lend.Prelude.{ℕ, List, [], ◌∷◌}
use soro_lend.Text.{codes}
use soro_lend.Schema.{Asset, MarketSnapshot}
use soro_lend.Store.{Env, Db, Action, ◌>>◌, pure, save_snapshot}
use soro_lend.Indexer.{IndexedEvent, Report, process_events}

-- The block of the last event, or `block` where there is none.
unfoldable pub last_block : ℕ → List IndexedEvent → ℕ
last_block block [] = block
last_block block (event ∷ events) = last_block event.block_number events

-- `snapshotRepo.create({ … })`: every figure is a fixed text. The date is set when it is saved.
abbrev pub blank_snapshot : Asset → MarketSnapshot
blank_snapshot asset = record {
  id = [];
  asset_id = asset.id;
  total_supply = codes "0";
  total_borrow = codes "0";
  total_reserves = codes "0";
  supply_index = codes "1000000000000000000";
  borrow_index = codes "1000000000000000000";
  borrow_rate = codes "0";
  supply_rate = codes "0";
  utilization_rate = codes "0";
  snapshot_at = 0;
}

module _ (E : Env) where
  -- What `pollSorobanRpc` does with the events that were fetched: the block to poll from next, and
  -- the reports that it broadcasts.
  unfoldable pub index_events : ℕ → List IndexedEvent → Db E → ℕ × List Report × Db E
  unfolding last_block
  index_events block events db =
      let (reports, db') = process_events E events db in (last_block block events, reports, db')

  -- The stub of `fetchContractEvents`.
  unfoldable pub fetch_contract_events : ℕ → List IndexedEvent
  fetch_contract_events from_block = []

  unfoldable pub poll_soroban_rpc : ℕ → Db E → ℕ × List Report × Db E
  unfolding fetch_contract_events
  poll_soroban_rpc block db = index_events block (fetch_contract_events block) db

  unfoldable pub snapshot_each : List Asset → Action E (Unit {0})
  snapshot_each [] = pure tt
  snapshot_each (asset ∷ assets) = do save_snapshot E (blank_snapshot asset); snapshot_each assets

  -- The `catch` logs the first refusal, which ends the loop.
  unfoldable pub snapshot_markets : Db E → Db E
  unfolding snapshot_each
  snapshot_markets db = (snapshot_each (E.assets.find (λ a. a.is_active) db.assets) db).1
