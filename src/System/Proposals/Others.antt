-- ===== src/System/Proposals/Others.antt =====
-- What leaves all proposals alone: the requests of the other controllers, and contract events.
use soro_lend.Prelude.{◌≡◌, refl, ap, ◌∙◌, some, arith, List, [], ◌∷◌}
use soro_lend.Text.{Text}
use soro_lend.Store.{Env, Db, bind_pure-db}
use soro_lend.Lending
use soro_lend.Borrowing
use soro_lend.Collateral
use soro_lend.Http.Controllers.{
  LendingRequest, BorrowingRequest, CollateralRequest, supply_position, borrow_position,
  collateral_position, serve_lending, serve_borrowing, serve_collateral,
}
use soro_lend.Http.Controllers.Reads.{lending_keeps, borrowing_keeps}
use soro_lend.Indexer.{
  IndexedEvent, EventType, supply, withdraw, borrow, repay, liquidation, other, dispatch,
  process_event, process_events, handle_supply_event, handle_withdraw_event, handle_borrow_event,
  handle_repay_event, handle_liquidation_event,
}
use soro_lend.Indexer.Frame.{
  handle_supply_event-keeps, handle_withdraw_event-keeps, handle_borrow_event-keeps,
  handle_repay_event-keeps,
}

module _ (E : Env) where
  module _ (key code amount : Text) (db : Db E) where
    supply-proposals : (Lending.supply E key code amount db).1.proposals ≡ db.proposals
    unfolding Lending.supply
    supply-proposals = ground arith

    withdraw-proposals : (Lending.withdraw E key code amount db).1.proposals ≡ db.proposals
    unfolding Lending.withdraw
    withdraw-proposals = ground arith

    borrow-proposals : (Borrowing.borrow E key code amount db).1.proposals ≡ db.proposals
    unfolding Borrowing.borrow
    borrow-proposals = ground arith

    repay-proposals : (Borrowing.repay E key code amount db).1.proposals ≡ db.proposals
    unfolding Borrowing.repay
    repay-proposals = ground arith

    deposit-proposals : (Collateral.deposit E key code amount db).1.proposals ≡ db.proposals
    unfolding Collateral.deposit
    deposit-proposals = ground arith

    withdraw_collateral-proposals :
        (Collateral.withdraw E key code amount db).1.proposals ≡ db.proposals
    unfolding Collateral.withdraw
    withdraw_collateral-proposals = ground arith

  pub lending-proposals :
      (r : LendingRequest) (db : Db E) → (serve_lending E r db).1.proposals ≡ db.proposals
  unfolding serve_lending
  lending-proposals (LendingRequest.supply dto) db =
      ap (λ d. d.proposals)
        (bind_pure-db (Lending.supply E dto.public_key dto.asset_code dto.amount) supply_position
          db)
      ∙ supply-proposals dto.public_key dto.asset_code dto.amount db
  lending-proposals (LendingRequest.withdraw dto) db =
      ap (λ d. d.proposals)
        (bind_pure-db (Lending.withdraw E dto.public_key dto.asset_code dto.amount) supply_position
          db)
      ∙ withdraw-proposals dto.public_key dto.asset_code dto.amount db
  lending-proposals LendingRequest.get_markets db = refl
  lending-proposals (LendingRequest.get_market code) db =
      ap (λ d. d.proposals) (lending_keeps E (LendingRequest.get_market code) db refl)
  lending-proposals (LendingRequest.get_positions address) db = refl

  pub borrowing-proposals :
      (r : BorrowingRequest) (db : Db E) → (serve_borrowing E r db).1.proposals ≡ db.proposals
  unfolding serve_borrowing
  borrowing-proposals (BorrowingRequest.borrow dto) db =
      ap (λ d. d.proposals)
        (bind_pure-db (Borrowing.borrow E dto.public_key dto.asset_code dto.amount) borrow_position
          db)
      ∙ borrow-proposals dto.public_key dto.asset_code dto.amount db
  borrowing-proposals (BorrowingRequest.repay dto) db =
      ap (λ d. d.proposals)
        (bind_pure-db (Borrowing.repay E dto.public_key dto.asset_code dto.amount) borrow_position
          db)
      ∙ repay-proposals dto.public_key dto.asset_code dto.amount db
  borrowing-proposals (BorrowingRequest.get_positions address) db = refl
  borrowing-proposals (BorrowingRequest.get_health address) db =
      ap (λ d. d.proposals) (borrowing_keeps E (BorrowingRequest.get_health address) db refl)

  pub collateral-proposals :
      (r : CollateralRequest) (db : Db E) → (serve_collateral E r db).1.proposals ≡ db.proposals
  unfolding serve_collateral
  collateral-proposals (CollateralRequest.deposit dto) db =
      ap (λ d. d.proposals)
        (bind_pure-db (Collateral.deposit E dto.public_key dto.asset_code dto.amount)
          collateral_position db)
      ∙ deposit-proposals dto.public_key dto.asset_code dto.amount db
  collateral-proposals (CollateralRequest.withdraw dto) db =
      ap (λ d. d.proposals)
        (bind_pure-db (Collateral.withdraw E dto.public_key dto.asset_code dto.amount)
          collateral_position db)
      ∙ withdraw_collateral-proposals dto.public_key dto.asset_code dto.amount db
  collateral-proposals (CollateralRequest.get_portfolio address) db = refl
  collateral-proposals (CollateralRequest.get_max_borrow address) db = refl

  dispatch-proposals :
      (type : EventType) (event : IndexedEvent) (db : Db E)
      → (dispatch E type event db).1.proposals ≡ db.proposals
  unfolding dispatch handle_liquidation_event
  dispatch-proposals supply event db =
      rw (bind_pure-db (handle_supply_event E event) some db)
        (handle_supply_event-keeps E event db).3
  dispatch-proposals withdraw event db =
      rw (bind_pure-db (handle_withdraw_event E event) some db)
        (handle_withdraw_event-keeps E event db).3
  dispatch-proposals borrow event db =
      rw (bind_pure-db (handle_borrow_event E event) some db)
        (handle_borrow_event-keeps E event db).3
  dispatch-proposals repay event db =
      rw (bind_pure-db (handle_repay_event E event) some db) (handle_repay_event-keeps E event db).3
  dispatch-proposals liquidation event db = refl
  dispatch-proposals other event db = refl

  pub process_events-proposals :
      (events : List IndexedEvent) (db : Db E)
      → (process_events E events db).1.proposals ≡ db.proposals
  unfolding process_events process_event
  process_events-proposals [] db = refl
  process_events-proposals (event ∷ events) db =
      process_events-proposals events (process_event E event db).1
      ∙ dispatch-proposals event.type event db
