-- ===== src/Examples/Events.antt =====
-- Events of the indexer on the small world.
use soro_lend.Prelude.{◌≡◌}
use soro_lend.Text.{codes}
use soro_lend.Examples.World.{World, start, xlm_found}
use soro_lend.Lending.{supply}
use soro_lend.Indexer.{IndexedEvent, reduced, handle_supply_event, process_events}
use soro_lend.Indexer
use soro_lend.Indexer.Replay.{handle_supply_event-supply}

abbrev pub supplied : IndexedEvent
supplied = record {
  type = Indexer.EventType.supply;
  user = codes "GA";
  asset = codes "XLM";
  amount = codes "7";
  tx_hash = codes "h";
  block_number = 12;
  timestamp = 3;
}

abbrev pub repaid : IndexedEvent
repaid = record supplied { type = Indexer.EventType.repay; asset = codes "USDC"; block_number = 13 }

handle_supply_event-supply_example :
    (handle_supply_event World supplied start).1
    ≡ (supply World (codes "GA") (codes "XLM") (codes "7") start).1
handle_supply_event-supply_example = handle_supply_event-supply World supplied start xlm_found
