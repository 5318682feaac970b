-- ===== src/Http/Controllers/Frame.antt =====
-- What no request touches.
use soro_lend.Prelude.{◌≡◌, refl, arith}
use soro_lend.Text.{Text}
use soro_lend.Runtime.{Result, ok, err}
use soro_lend.Store.{Env, Db}
use soro_lend.Lending
use soro_lend.Borrowing
use soro_lend.Collateral
use soro_lend.Http.Controllers.{
  Reply, supply_position, borrow_position, collateral_position, LendingRequest, BorrowingRequest,
  CollateralRequest, serve_lending, serve_borrowing, serve_collateral,
}
use soro_lend.Http.Controllers.Reads.{lending_keeps, borrowing_keeps}

-- The assets with their prices, the events, the snapshots and the price history are as they were.
abbrev pub KeepsMarkets : (E : Env) → Db E → Db E → Type 0
KeepsMarkets E db db' =
    (db'.assets ≡ db.assets)
    × (db'.liquidations ≡ db.liquidations)
    × (db'.snapshots ≡ db.snapshots)
    × (db'.feeds ≡ db.feeds)

-- The tables of positions are as they were.
abbrev pub KeepsPositions : (E : Env) → Db E → Db E → Type 0
KeepsPositions E db db' =
    (db'.supplies ≡ db.supplies) × (db'.borrows ≡ db.borrows) × (db'.collaterals ≡ db.collaterals)

module _ (E : Env) where
  pub reply-db :
      {A : Type 0} (f : A → Reply) (o : Result A × Db E)
      → (elim o.0 as (λ _. Result Reply × Db E) [ ok a ↦ (ok (f a), o.1) | err e ↦ (err e, o.1) ]).1
        ≡ o.1
  reply-db f (ok a, db) = refl
  reply-db f (err e, db) = refl

  pub same-KeepsMarkets : (db db' : Db E) → db' ≡ db → KeepsMarkets E db db'
  same-KeepsMarkets db db' h = rw h (refl, refl, refl, refl)

  pub same-KeepsPositions : (db db' : Db E) → db' ≡ db → KeepsPositions E db db'
  same-KeepsPositions db db' h = rw h (refl, refl, refl)

  supply-KeepsMarkets :
      (key code amount : Text) (db : Db E)
      → KeepsMarkets E db (Lending.supply E key code amount db).1
  unfolding Lending.supply
  supply-KeepsMarkets key code amount db = ground arith

  withdraw-KeepsMarkets :
      (key code amount : Text) (db : Db E)
      → KeepsMarkets E db (Lending.withdraw E key code amount db).1
  unfolding Lending.withdraw
  withdraw-KeepsMarkets key code amount db = ground arith

  borrow-KeepsMarkets :
      (key code amount : Text) (db : Db E)
      → KeepsMarkets E db (Borrowing.borrow E key code amount db).1
  unfolding Borrowing.borrow
  borrow-KeepsMarkets key code amount db = ground arith

  repay-KeepsMarkets :
      (key code amount : Text) (db : Db E)
      → KeepsMarkets E db (Borrowing.repay E key code amount db).1
  unfolding Borrowing.repay
  repay-KeepsMarkets key code amount db = ground arith

  deposit-KeepsMarkets :
      (key code amount : Text) (db : Db E)
      → KeepsMarkets E db (Collateral.deposit E key code amount db).1
  unfolding Collateral.deposit
  deposit-KeepsMarkets key code amount db = ground arith

  withdraw_collateral-KeepsMarkets :
      (key code amount : Text) (db : Db E)
      → KeepsMarkets E db (Collateral.withdraw E key code amount db).1
  unfolding Collateral.withdraw
  withdraw_collateral-KeepsMarkets key code amount db = ground arith

  pub lending-KeepsMarkets :
      (r : LendingRequest) (db : Db E) → KeepsMarkets E db (serve_lending E r db).1
  unfolding serve_lending
  lending-KeepsMarkets (LendingRequest.supply dto) db =
      rw (reply-db supply_position (Lending.supply E dto.public_key dto.asset_code dto.amount db))
        (supply-KeepsMarkets dto.public_key dto.asset_code dto.amount db)
  lending-KeepsMarkets (LendingRequest.withdraw dto) db =
      rw (reply-db supply_position (Lending.withdraw E dto.public_key dto.asset_code dto.amount db))
        (withdraw-KeepsMarkets dto.public_key dto.asset_code dto.amount db)
  lending-KeepsMarkets LendingRequest.get_markets db = (refl, refl, refl, refl)
  lending-KeepsMarkets (LendingRequest.get_market code) db =
      same-KeepsMarkets db _ (lending_keeps E (LendingRequest.get_market code) db refl)
  lending-KeepsMarkets (LendingRequest.get_positions address) db = (refl, refl, refl, refl)

  pub borrowing-KeepsMarkets :
      (r : BorrowingRequest) (db : Db E) → KeepsMarkets E db (serve_borrowing E r db).1
  unfolding serve_borrowing
  borrowing-KeepsMarkets (BorrowingRequest.borrow dto) db =
      rw (reply-db borrow_position (Borrowing.borrow E dto.public_key dto.asset_code dto.amount db))
        (borrow-KeepsMarkets dto.public_key dto.asset_code dto.amount db)
  borrowing-KeepsMarkets (BorrowingRequest.repay dto) db =
      rw (reply-db borrow_position (Borrowing.repay E dto.public_key dto.asset_code dto.amount db))
        (repay-KeepsMarkets dto.public_key dto.asset_code dto.amount db)
  borrowing-KeepsMarkets (BorrowingRequest.get_positions address) db = (refl, refl, refl, refl)
  borrowing-KeepsMarkets (BorrowingRequest.get_health address) db =
      same-KeepsMarkets db _ (borrowing_keeps E (BorrowingRequest.get_health address) db refl)

  pub collateral-KeepsMarkets :
      (r : CollateralRequest) (db : Db E) → KeepsMarkets E db (serve_collateral E r db).1
  unfolding serve_collateral
  collateral-KeepsMarkets (CollateralRequest.deposit dto) db =
      rw
        (reply-db collateral_position
          (Collateral.deposit E dto.public_key dto.asset_code dto.amount db))
        (deposit-KeepsMarkets dto.public_key dto.asset_code dto.amount db)
  collateral-KeepsMarkets (CollateralRequest.withdraw dto) db =
      rw
        (reply-db collateral_position
          (Collateral.withdraw E dto.public_key dto.asset_code dto.amount db))
        (withdraw_collateral-KeepsMarkets dto.public_key dto.asset_code dto.amount db)
  collateral-KeepsMarkets (CollateralRequest.get_portfolio address) db = (refl, refl, refl, refl)
  collateral-KeepsMarkets (CollateralRequest.get_max_borrow address) db = (refl, refl, refl, refl)
