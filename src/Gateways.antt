-- ===== src/Gateways.antt =====
-- The gateways (backend/src/modules: indexer, lending and liquidation, the `*.gateway.ts` files), as
-- what they emit to Socket.IO.
use soro_lend.Prelude.{false, ◌≡◌, refl}
use soro_lend.Text.{Text, codes, text_eq}

-- An event to all clients of a namespace, or to the client that has just connected.
pub record Emission (Payload : Type 0) : Type 0 where
  pub namespace : Text
  pub event : Text
  pub payload : Payload

pub data Signal (Payload : Type 0) : Type 0 where
  indexer_connection lending_connection liquidation_connection : Signal Payload
  indexed_event market_update liquidation_event : Payload → Signal Payload

module _ {Payload : Type 0} (message : Text → Payload) where
  -- IndexerGateway
  abbrev pub greet_indexer : Emission Payload
  greet_indexer = record {
    namespace = codes "/indexer";
    event = codes "connected";
    payload = message (codes "Connected to indexer events");
  }

  abbrev pub broadcast_indexed_event : Payload → Emission Payload
  broadcast_indexed_event event = record {
    namespace = codes "/indexer";
    event = codes "indexedEvent";
    payload = event;
  }

  -- LendingGateway
  abbrev pub greet_lending : Emission Payload
  greet_lending = record {
    namespace = codes "/markets";
    event = codes "connected";
    payload = message (codes "Connected to market updates");
  }

  abbrev pub broadcast_market_update : Payload → Emission Payload
  broadcast_market_update market_data = record {
    namespace = codes "/markets";
    event = codes "marketUpdate";
    payload = market_data;
  }

  -- LiquidationGateway
  abbrev pub greet_liquidation : Emission Payload
  greet_liquidation = record {
    namespace = codes "/liquidations";
    event = codes "connected";
    payload = message (codes "Connected to liquidation events");
  }

  abbrev pub broadcast_liquidation_event : Payload → Emission Payload
  broadcast_liquidation_event event = record {
    namespace = codes "/liquidations";
    event = codes "liquidationEvent";
    payload = event;
  }

  unfoldable pub emitted : Signal Payload → Emission Payload
  emitted indexer_connection = greet_indexer
  emitted lending_connection = greet_lending
  emitted liquidation_connection = greet_liquidation
  emitted (indexed_event event) = broadcast_indexed_event event
  emitted (market_update market_data) = broadcast_market_update market_data
  emitted (liquidation_event event) = broadcast_liquidation_event event

  -- No gateway emits `price:update`, the event that the price stream of the client listens to.
  pub emitted-price_update :
      (s : Signal Payload) → text_eq (emitted s).event (codes "price:update") ≡ false
  unfolding emitted text_eq
  emitted-price_update indexer_connection = refl
  emitted-price_update lending_connection = refl
  emitted-price_update liquidation_connection = refl
  emitted-price_update (indexed_event event) = refl
  emitted-price_update (market_update market_data) = refl
  emitted-price_update (liquidation_event event) = refl
