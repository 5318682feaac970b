-- ===== src/System/Prices.antt =====
-- No history changes an asset or its price.
use soro_lend.Prelude.{◌≡◌, refl, ◌∙◌, some, List, [], ◌∷◌}
use soro_lend.Text.{Text}
use soro_lend.Store.{Env, Db, bind_pure-db}
use soro_lend.Auth.{Redis, Settings}
use soro_lend.Liquidation.Frame.{liquidate-KeepsRest, scan_and_liquidate-KeepsRest}
use soro_lend.Oracle.Updates.{refresh_prices_keeps}
use soro_lend.Indexer.{
  IndexedEvent, EventType, supply, withdraw, borrow, repay, liquidation, other, dispatch,
  process_event, process_events, handle_supply_event, handle_withdraw_event, handle_borrow_event,
  handle_repay_event, handle_liquidation_event,
}
use soro_lend.Indexer.Poll.{index_events}
use soro_lend.Indexer.Frame.{
  handle_supply_event-keeps, handle_withdraw_event-keeps, handle_borrow_event-keeps,
  handle_repay_event-keeps,
}
use soro_lend.Http.Controllers.Failures.{serve-KeepsMarkets}
use soro_lend.System.{
  Server, Happening, request, scan, refresh, accrual, snapshot, poll, happen, replay,
}
use soro_lend.System.Timers.{sync_interest_accrual-KeepsAll, snapshot_markets-KeepsAll}

module _ (E : Env) where
  dispatch-assets :
      (type : EventType) (event : IndexedEvent) (db : Db E)
      → (dispatch E type event db).1.assets ≡ db.assets
  unfolding dispatch handle_liquidation_event
  dispatch-assets supply event db =
      rw (bind_pure-db (handle_supply_event E event) some db)
        (handle_supply_event-keeps E event db).2
  dispatch-assets withdraw event db =
      rw (bind_pure-db (handle_withdraw_event E event) some db)
        (handle_withdraw_event-keeps E event db).2
  dispatch-assets borrow event db =
      rw (bind_pure-db (handle_borrow_event E event) some db)
        (handle_borrow_event-keeps E event db).2
  dispatch-assets repay event db =
      rw (bind_pure-db (handle_repay_event E event) some db) (handle_repay_event-keeps E event db).2
  dispatch-assets liquidation event db = refl
  dispatch-assets other event db = refl

  process_events-assets :
      (events : List IndexedEvent) (db : Db E) → (process_events E events db).1.assets ≡ db.assets
  unfolding process_events process_event
  process_events-assets [] db = refl
  process_events-assets (event ∷ events) db =
      process_events-assets events (process_event E event db).1
      ∙ dispatch-assets event.type event db

  module _ (R : Redis) (s : Settings) (sign : Text → Text) where
    happen-assets :
        (h : Happening) (v : Server E R) → (happen R s sign E h v).db.assets ≡ v.db.assets
    unfolding happen index_events
    happen-assets (request o r) v = (serve-KeepsMarkets R s sign E o v.db v.cache r).0
    happen-assets (Happening.liquidation now key id debt_code collateral_code) v =
        (liquidate-KeepsRest E now key id debt_code collateral_code v.db).0
    happen-assets (scan now) v = (scan_and_liquidate-KeepsRest E now v.db).0
    happen-assets (refresh now) v = rw (refresh_prices_keeps E now v.db) refl
    happen-assets accrual v = (sync_interest_accrual-KeepsAll E v.db).0
    happen-assets snapshot v = (snapshot_markets-KeepsAll E v.db).0
    happen-assets (poll events) v = process_events-assets events v.db

    -- After any history of requests, timers, liquidations and contract events the table of assets,
    -- with the oracle's prices, is the one it started with.
    pub replay-assets :
        (hs : List Happening) (v : Server E R) → (replay R s sign E hs v).db.assets ≡ v.db.assets
    unfolding replay
    replay-assets [] v = refl
    replay-assets (h ∷ hs) v = replay-assets hs (happen R s sign E h v) ∙ happen-assets h v
