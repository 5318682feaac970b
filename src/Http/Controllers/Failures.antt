-- ===== src/Http/Controllers/Failures.antt =====
-- What requests leave alone, and what they leave when they fail.
use soro_lend.Prelude.{◌≡◌, refl, arith}
use soro_lend.Text.{Text}
use soro_lend.Runtime.{Error, Result, ok, err}
use soro_lend.Store.{Env, Db}
use soro_lend.Auth.{Redis, Settings}
use soro_lend.Lending
use soro_lend.Borrowing
use soro_lend.Collateral
use soro_lend.Http.Controllers.{
  Request, Reply, supply_position, borrow_position, collateral_position, lending, borrowing,
  collateral, governance, analytics, auth, health, ready, LendingRequest, BorrowingRequest,
  CollateralRequest, Outside, serve, serve_lending, serve_borrowing, serve_collateral,
}
use soro_lend.Http.Controllers.Frame.{
  KeepsMarkets, KeepsPositions, reply-db, same-KeepsMarkets, same-KeepsPositions,
  lending-KeepsMarkets, borrowing-KeepsMarkets, collateral-KeepsMarkets,
}
use soro_lend.Http.Controllers.Ballots.{governance-KeepsBoth}
use soro_lend.Http.Controllers.Reads.{lending_keeps, borrowing_keeps, analytics_keeps}

module _ (E : Env) where
  supply_fails :
      (key code amount : Text) (db : Db E) {e : Error}
      → (Lending.supply E key code amount db).0 ≡ err e
      → KeepsPositions E db (Lending.supply E key code amount db).1
  unfolding Lending.supply
  supply_fails key code amount db h = ground arith

  withdraw_fails :
      (key code amount : Text) (db : Db E) {e : Error}
      → (Lending.withdraw E key code amount db).0 ≡ err e
      → KeepsPositions E db (Lending.withdraw E key code amount db).1
  unfolding Lending.withdraw
  withdraw_fails key code amount db h = ground arith

  borrow_fails :
      (key code amount : Text) (db : Db E) {e : Error}
      → (Borrowing.borrow E key code amount db).0 ≡ err e
      → KeepsPositions E db (Borrowing.borrow E key code amount db).1
  unfolding Borrowing.borrow
  borrow_fails key code amount db h = ground arith

  repay_fails :
      (key code amount : Text) (db : Db E) {e : Error}
      → (Borrowing.repay E key code amount db).0 ≡ err e
      → KeepsPositions E db (Borrowing.repay E key code amount db).1
  unfolding Borrowing.repay
  repay_fails key code amount db h = ground arith

  deposit_fails :
      (key code amount : Text) (db : Db E) {e : Error}
      → (Collateral.deposit E key code amount db).0 ≡ err e
      → KeepsPositions E db (Collateral.deposit E key code amount db).1
  unfolding Collateral.deposit
  deposit_fails key code amount db h = ground arith

  withdraw_collateral_fails :
      (key code amount : Text) (db : Db E) {e : Error}
      → (Collateral.withdraw E key code amount db).0 ≡ err e
      → KeepsPositions E db (Collateral.withdraw E key code amount db).1
  unfolding Collateral.withdraw
  withdraw_collateral_fails key code amount db h = ground arith

  reply_err :
      {A : Type 0} (f : A → Reply) (o : Result A × Db E) {e : Error}
      → (elim o.0 as (λ _. Result Reply × Db E) [ ok a ↦ (ok (f a), o.1) | err e ↦ (err e, o.1) ]).0
        ≡ err e
      → o.0 ≡ err e
  reply_err f (ok a, db) h = cc
  reply_err f (err e, db) h = cc

  -- A handler fails where its service does, and with the same database.
  replied :
      {A : Type 0} (f : A → Reply) (o : Result A × Db E) (db : Db E) {e : Error}
      → (o.0 ≡ err e → KeepsPositions E db o.1)
      → (elim o.0 as (λ _. Result Reply × Db E) [ ok a ↦ (ok (f a), o.1) | err e ↦ (err e, o.1) ]).0
        ≡ err e
      → KeepsPositions E db
          (elim o.0 as (λ _. Result Reply × Db E) [
            | ok a ↦ (ok (f a), o.1)
            | err e ↦ (err e, o.1)
          ]).1
  replied f o db k h = rw (reply-db E f o) (k (reply_err f o h))

  lending_fails :
      (r : LendingRequest) (db : Db E) {e : Error}
      → (serve_lending E r db).0 ≡ err e
      → KeepsPositions E db (serve_lending E r db).1
  unfolding serve_lending
  lending_fails (LendingRequest.supply dto) db h =
      replied supply_position (Lending.supply E dto.public_key dto.asset_code dto.amount db) db
        (supply_fails dto.public_key dto.asset_code dto.amount db) h
  lending_fails (LendingRequest.withdraw dto) db h =
      replied supply_position (Lending.withdraw E dto.public_key dto.asset_code dto.amount db) db
        (withdraw_fails dto.public_key dto.asset_code dto.amount db) h
  lending_fails LendingRequest.get_markets db h = cc
  lending_fails (LendingRequest.get_market code) db h =
      same-KeepsPositions E db _ (lending_keeps E (LendingRequest.get_market code) db refl)
  lending_fails (LendingRequest.get_positions address) db h = cc

  borrowing_fails :
      (r : BorrowingRequest) (db : Db E) {e : Error}
      → (serve_borrowing E r db).0 ≡ err e
      → KeepsPositions E db (serve_borrowing E r db).1
  unfolding serve_borrowing
  borrowing_fails (BorrowingRequest.borrow dto) db h =
      replied borrow_position (Borrowing.borrow E dto.public_key dto.asset_code dto.amount db) db
        (borrow_fails dto.public_key dto.asset_code dto.amount db) h
  borrowing_fails (BorrowingRequest.repay dto) db h =
      replied borrow_position (Borrowing.repay E dto.public_key dto.asset_code dto.amount db) db
        (repay_fails dto.public_key dto.asset_code dto.amount db) h
  borrowing_fails (BorrowingRequest.get_positions address) db h = cc
  borrowing_fails (BorrowingRequest.get_health address) db h =
      same-KeepsPositions E db _ (borrowing_keeps E (BorrowingRequest.get_health address) db refl)

  collateral_fails :
      (r : CollateralRequest) (db : Db E) {e : Error}
      → (serve_collateral E r db).0 ≡ err e
      → KeepsPositions E db (serve_collateral E r db).1
  unfolding serve_collateral
  collateral_fails (CollateralRequest.deposit dto) db h =
      replied collateral_position (Collateral.deposit E dto.public_key dto.asset_code dto.amount db)
        db (deposit_fails dto.public_key dto.asset_code dto.amount db) h
  collateral_fails (CollateralRequest.withdraw dto) db h =
      replied collateral_position
        (Collateral.withdraw E dto.public_key dto.asset_code dto.amount db) db
        (withdraw_collateral_fails dto.public_key dto.asset_code dto.amount db) h
  collateral_fails (CollateralRequest.get_portfolio address) db h = cc
  collateral_fails (CollateralRequest.get_max_borrow address) db h = cc

module _ (R : Redis) (s : Settings) (sign : Text → Text) (E : Env) (o : Outside) (db : Db E)
    (cache : R.Cache) where
  -- No request, of whichever controller and whether it succeeds or fails, writes an asset with its
  -- price, a liquidation event, a market snapshot or a price feed.
  pub serve-KeepsMarkets : (r : Request) → KeepsMarkets E db (serve R s sign E o r (db, cache)).1.0
  unfolding serve
  serve-KeepsMarkets (lending r) = lending-KeepsMarkets E r db
  serve-KeepsMarkets (borrowing r) = borrowing-KeepsMarkets E r db
  serve-KeepsMarkets (collateral r) = collateral-KeepsMarkets E r db
  serve-KeepsMarkets (governance r) = (governance-KeepsBoth E o.now r db).0
  serve-KeepsMarkets (analytics r) = same-KeepsMarkets E db _ (analytics_keeps E o r db)
  serve-KeepsMarkets (auth r) = (refl, refl, refl, refl)
  serve-KeepsMarkets health = (refl, refl, refl, refl)
  serve-KeepsMarkets ready = (refl, refl, refl, refl)

  -- A request that fails, of whichever controller, has written no supply, no debt and no collateral.
  pub serve_fails :
      (r : Request) {e : Error}
      → (serve R s sign E o r (db, cache)).0 ≡ err e
      → KeepsPositions E db (serve R s sign E o r (db, cache)).1.0
  unfolding serve
  serve_fails (lending r) h = lending_fails E r db h
  serve_fails (borrowing r) h = borrowing_fails E r db h
  serve_fails (collateral r) h = collateral_fails E r db h
  serve_fails (governance r) h = (governance-KeepsBoth E o.now r db).1
  serve_fails (analytics r) h = same-KeepsPositions E db _ (analytics_keeps E o r db)
  serve_fails (auth r) h = (refl, refl, refl)
  serve_fails health h = cc
  serve_fails ready h = cc
