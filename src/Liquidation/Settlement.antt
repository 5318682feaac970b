-- ===== src/Liquidation/Settlement.antt =====
-- What a liquidation does, and what it does not ask.
use soro_lend.Prelude.{ℕ, ◌≡◌, false, none, some, arith}
use soro_lend.Text.{Text}
use soro_lend.Runtime.{ok, err, rejected}
use soro_lend.Schema.{User, Asset, BorrowPosition, CollateralPosition, LiquidationEvent}
use soro_lend.Store.{Env, Db, user_by_key, user_by_id, active_asset, borrow_of, collateral_of}
use soro_lend.Valuation.{price_of}
use soro_lend.Liquidation.{seized, debt_after, collateral_after, event_of, settle, liquidate}

-- The two positions as a liquidation writes them.
abbrev pub paid : (E : Env) → BorrowPosition → Asset → BorrowPosition
paid E debt debt_asset = record debt { amount = E.num.to_string (debt_after E debt debt_asset) }

abbrev pub reduced :
    (E : Env) → BorrowPosition → Asset → CollateralPosition → Asset → CollateralPosition
reduced E debt debt_asset collateral collateral_asset = record collateral {
  amount =
      E.num.to_string
        (collateral_after E collateral (seized E debt debt_asset collateral collateral_asset));
}

module _ (E : Env) (now : ℕ) (db : Db E) {liquidator borrower : User}
    {debt_asset collateral_asset : Asset} {debt : BorrowPosition}
    {collateral : CollateralPosition} where
  -- With the two users, the two assets and the two positions in place and both prices other than 0,
  -- a liquidation goes on to its writes. The health of the borrower is not among the conditions.
  pub liquidate-settle :
      (key id debt_code collateral_code : Text)
      → user_by_key E key db ≡ some liquidator
      → user_by_id E id db ≡ some borrower
      → active_asset E debt_code db ≡ some debt_asset
      → active_asset E collateral_code db ≡ some collateral_asset
      → borrow_of E id debt_asset.id db ≡ some debt
      → collateral_of E id collateral_asset.id db ≡ some collateral
      → E.num.eq (price_of E.num debt_asset) (E.num.literal 0 0) ≡ false
      → E.num.eq (price_of E.num collateral_asset) (E.num.literal 0 0) ≡ false
      → liquidate E now key id debt_code collateral_code db
        ≡ settle E now liquidator borrower debt_asset collateral_asset debt collateral db
  unfolding liquidate
  liquidate-settle key id debt_code collateral_code a b c d e f g h = ground arith

module _ (E : Env) (now : ℕ) (db : Db E) (liquidator borrower : User)
    (debt_asset collateral_asset : Asset) (debt : BorrowPosition) (collateral : CollateralPosition)
    {r : BorrowPosition} {t : E.borrows.Rows}
    (first : E.borrows.save (paid E debt debt_asset) db.borrows ≡ some (r, t)) where
  -- The writes are no transaction: where the database takes the debt and refuses the collateral, the
  -- debt stays reduced, no collateral is taken and no event is written.
  pub settle_refused :
      E.collaterals.save (reduced E debt debt_asset collateral collateral_asset) db.collaterals
        ≡ none
      → settle E now liquidator borrower debt_asset collateral_asset debt collateral db
        ≡ (err rejected, record db { borrows = t })
  unfolding settle
  settle_refused second = ground arith

  -- Where the database takes all three writes, the event is returned, and the debt, the collateral
  -- and the events are the tables after them; no other table changes.
  pub settle_done :
      {q : CollateralPosition} {s : E.collaterals.Rows} {e : LiquidationEvent}
      {w : E.liquidations.Rows}
      → E.collaterals.save (reduced E debt debt_asset collateral collateral_asset) db.collaterals
        ≡ some (q, s)
      → E.liquidations.save
          (event_of E now liquidator borrower debt_asset collateral_asset debt collateral)
          db.liquidations
        ≡ some (e, w)
      → settle E now liquidator borrower debt_asset collateral_asset debt collateral db
        ≡ (ok e, record db { borrows = t; collaterals = s; liquidations = w })
  unfolding settle
  settle_done second third = ground arith
