-- ===== src/System/Solvency.antt =====
-- No history leaves a balance negative.
use soro_lend.Prelude.{◌≡◌, Bool, true, ◌&&◌, Option, some, List, [], ◌∷◌}
use soro_lend.Prelude.Int.{ℤ}
use soro_lend.Text.{Text}
use soro_lend.Text.Decimal.{bigint}
use soro_lend.Schema.{SupplyPosition, BorrowPosition, CollateralPosition}
use soro_lend.Store.{Env, Db, bind_pure-db}
use soro_lend.Auth.{Redis, Settings}
use soro_lend.Lending.Ledger.{SupplyLaws}
use soro_lend.Borrowing.Debts.{BorrowLaws}
use soro_lend.Collateral.Balances.{CollateralLaws}
use soro_lend.Liquidation.Frame.{liquidate-KeepsRest, scan_and_liquidate-KeepsRest}
use soro_lend.Liquidation.Solvency.{
  PrintsNatural, NaturalPair, liquidate-NaturalPair, scan_and_liquidate-NaturalPair,
}
use soro_lend.Oracle.Updates.{refresh_prices_keeps}
use soro_lend.Indexer.{
  IndexedEvent, EventType, supply, withdraw, borrow, repay, liquidation, other, dispatch,
  process_event, process_events, handle_supply_event, handle_withdraw_event, handle_borrow_event,
  handle_repay_event, handle_liquidation_event,
}
use soro_lend.Indexer.Poll.{index_events}
use soro_lend.Indexer.Frame.{
  handle_supply_event-keeps, handle_withdraw_event-keeps, handle_borrow_event-keeps,
  handle_repay_event-keeps,
}
use soro_lend.Indexer.Solvency.{
  handle_supply_event-Natural, handle_withdraw_event-Natural, handle_borrow_event-Natural,
  handle_repay_event-Natural,
}
use soro_lend.Http.Controllers.Solvency.{
  is_good_number, is_good, good_parts, Solvent, kept-Solvent, serve-Solvent,
}
use soro_lend.Http.Controllers.History.{good_both}
use soro_lend.System.{
  Server, Happening, request, scan, refresh, accrual, snapshot, poll, happen, replay,
}
use soro_lend.System.Timers.{sync_interest_accrual-KeepsAll, snapshot_markets-KeepsAll}

-- A supply or a borrow event has an amount that `BigInt` reads as a number that is not negative.
abbrev pub is_good_event : EventType → Text → Bool
is_good_event supply amount = is_good_number (bigint amount)
is_good_event borrow amount = is_good_number (bigint amount)
is_good_event _ amount = true

abbrev pub are_good_events : List IndexedEvent → Bool
are_good_events [] = true
are_good_events (event ∷ events) = is_good_event event.type event.amount && are_good_events events

abbrev pub is_good_happening : Happening → Bool
is_good_happening (request o r) = is_good r
is_good_happening (poll events) = are_good_events events
is_good_happening _ = true

abbrev pub is_good_history : List Happening → Bool
is_good_history [] = true
is_good_history (h ∷ hs) = is_good_happening h && is_good_history hs

module _ (E : Env) (value : Text → Option ℤ) {back₁ : SupplyPosition → SupplyPosition}
    {back₂ : BorrowPosition → BorrowPosition} {back₃ : CollateralPosition → CollateralPosition}
    (supply_laws : SupplyLaws E value back₁) (borrow_laws : BorrowLaws E value back₂)
    (collateral_laws : CollateralLaws E value back₃) where
  dispatch-Solvent :
      (type : EventType) (event : IndexedEvent) (db : Db E)
      → is_good_event type event.amount ≡ true
      → Solvent E value db
      → Solvent E value (dispatch E type event db).1
  unfolding dispatch handle_liquidation_event
  dispatch-Solvent supply event db h v =
      let (x, reads, good) = good_parts (bigint event.amount) h in
      let (b, c, _, _) = handle_supply_event-keeps E event db in
      rw (bind_pure-db (handle_supply_event E event) some db) (record {
        supplies = handle_supply_event-Natural E value supply_laws event db reads good v.supplies;
        debts = rw b v.debts;
        collaterals = rw c v.collaterals;
      })
  dispatch-Solvent withdraw event db h v =
      let (b, c, _, _) = handle_withdraw_event-keeps E event db in
      rw (bind_pure-db (handle_withdraw_event E event) some db) (record {
        supplies = handle_withdraw_event-Natural E value supply_laws event db v.supplies;
        debts = rw b v.debts;
        collaterals = rw c v.collaterals;
      })
  dispatch-Solvent borrow event db h v =
      let (x, reads, good) = good_parts (bigint event.amount) h in
      let (s, c, _, _) = handle_borrow_event-keeps E event db in
      rw (bind_pure-db (handle_borrow_event E event) some db) (record {
        supplies = rw s v.supplies;
        debts = handle_borrow_event-Natural E value borrow_laws event db reads good v.debts;
        collaterals = rw c v.collaterals;
      })
  dispatch-Solvent repay event db h v =
      let (s, c, _, _) = handle_repay_event-keeps E event db in
      rw (bind_pure-db (handle_repay_event E event) some db) (record {
        supplies = rw s v.supplies;
        debts = handle_repay_event-Natural E value borrow_laws event db v.debts;
        collaterals = rw c v.collaterals;
      })
  dispatch-Solvent liquidation event db h v = v
  dispatch-Solvent other event db h v = v

  process_events-Solvent :
      (events : List IndexedEvent) (db : Db E)
      → are_good_events events ≡ true
      → Solvent E value db
      → Solvent E value (process_events E events db).1
  unfolding process_events process_event
  process_events-Solvent [] db h v = v
  process_events-Solvent (event ∷ events) db h v =
      let (now, later) =
        good_both (is_good_event event.type event.amount) (are_good_events events) h in
      process_events-Solvent events (process_event E event db).1 later
        (dispatch-Solvent event.type event db now v)

  pair_of : (db : Db E) → Solvent E value db → NaturalPair E value db
  pair_of db v = record { debts = v.debts; collaterals = v.collaterals }

  with_pair :
      (db db' : Db E)
      → db'.supplies ≡ db.supplies
      → Solvent E value db
      → NaturalPair E value db'
      → Solvent E value db'
  with_pair db db' same v pair = record {
    supplies = rw same v.supplies;
    debts = pair.debts;
    collaterals = pair.collaterals;
  }

  module _ (prints : PrintsNatural E value) (R : Redis) (s : Settings) (sign : Text → Text) where
    happen-Solvent :
        (h : Happening) (v : Server E R)
        → is_good_happening h ≡ true
        → Solvent E value v.db
        → Solvent E value (happen R s sign E h v).db
    unfolding happen index_events
    happen-Solvent (request o r) v good solvent =
        serve-Solvent E value supply_laws borrow_laws collateral_laws R s sign o r v.db v.cache good
          solvent
    happen-Solvent (Happening.liquidation now key id debt_code collateral_code) v good solvent =
        with_pair v.db _ (liquidate-KeepsRest E now key id debt_code collateral_code v.db).1 solvent
          (liquidate-NaturalPair E value borrow_laws collateral_laws prints now key id debt_code
            collateral_code v.db (pair_of v.db solvent))
    happen-Solvent (scan now) v good solvent =
        with_pair v.db _ (scan_and_liquidate-KeepsRest E now v.db).1 solvent (
          scan_and_liquidate-NaturalPair E value borrow_laws collateral_laws prints now v.db
            (pair_of v.db solvent))
    happen-Solvent (refresh now) v good solvent = rw (refresh_prices_keeps E now v.db) solvent
    happen-Solvent accrual v good solvent =
        kept-Solvent E value supply_laws borrow_laws collateral_laws v.db _
          (let (_, a, b, c, _) = sync_interest_accrual-KeepsAll E v.db in (a, b, c)) solvent
    happen-Solvent snapshot v good solvent =
        kept-Solvent E value supply_laws borrow_laws collateral_laws v.db _
          (let (_, a, b, c, _) = snapshot_markets-KeepsAll E v.db in (a, b, c)) solvent
    happen-Solvent (poll events) v good solvent = process_events-Solvent events v.db good solvent

    -- Where the three tables have the laws of positions, the numbers print what is not below 0 as no
    -- negative integer, and no balance is negative at first: after any history of requests, timers,
    -- liquidations and contract events, failed ones included, no balance of a supply, a debt or a
    -- collateral is negative, if `BigInt` reads the amounts of the supplies, borrows and deposits
    -- among the requests, and of the supply and borrow events, as numbers that are not negative.
    pub replay-Solvent :
        (hs : List Happening) (v : Server E R)
        → is_good_history hs ≡ true
        → Solvent E value v.db
        → Solvent E value (replay R s sign E hs v).db
    unfolding replay
    replay-Solvent [] v good solvent = solvent
    replay-Solvent (h ∷ hs) v good solvent =
        let (now, later) = good_both (is_good_happening h) (is_good_history hs) good in
        replay-Solvent hs (happen R s sign E h v) later (happen-Solvent h v now solvent)
