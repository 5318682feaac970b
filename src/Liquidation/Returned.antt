-- ===== src/Liquidation/Returned.antt =====
-- What a liquidation has done that returned.
use soro_lend.Prelude.{ℕ, ◌≡◌, ◌++◌, [], Option, none, some}
use soro_lend.Prelude.Int.{pos}
use soro_lend.Text.{Text, codes, truthy}
use soro_lend.Text.Decimal.{to_text}
use soro_lend.Schema.{BorrowPosition, CollateralPosition, LiquidationEvent}
use soro_lend.Store.{Env, Db}
use soro_lend.Valuation.{price_of}
use soro_lend.Liquidation.{seized}
use soro_lend.Liquidation.Outcomes.{Found}

-- The amounts, written out: p is the price of the debt's asset, q that of the collateral's.
module _ (E : Env) where
  open E.num use {Value, literal, parse_float, add, sub, mul, div, min, max, to_string}

  -- The share that goes on top, a twentieth where the asset has none.
  abbrev pub bonus_rate : Option Text → Value
  bonus_rate none = literal 5 2
  bonus_rate (some t) = parse_float t

  -- What is left of a debt d: d minus its worth divided by the price again, at least 0.
  abbrev pub left_over : Value → Value → Value
  left_over d p = max (literal 0 0) (sub d (div (mul d p) p))

  -- What is taken of a collateral c: the worth of the debt with the bonus, at most all of it.
  abbrev pub taken : Value → Value → Value → Value → Value → Value
  taken d p rate q c = min (div (mul (mul d p) (add (literal 1 0) rate)) q) c

  module _ (now : ℕ) (id debt_code collateral_code : Text) (db : Db E) where
    -- A liquidation that returned `event` and left `after`: what it found, and the three rows it wrote.
    pub record IsLiquidated (event : LiquidationEvent) (after : Db E) : Type 0 where
      pub users : E.users.Rows
      pub found : Found E id debt_code collateral_code db users
      pub debt_row : BorrowPosition
      pub borrows : E.borrows.Rows
      pub debt_written :
          E.borrows.save
            (record found.debt {
              amount =
                  to_string
                    (left_over (parse_float found.debt.amount) (price_of E.num found.debt_asset));
            })
            db.borrows
          ≡ some (debt_row, borrows)
      pub collateral_row : CollateralPosition
      pub collaterals : E.collaterals.Rows
      pub collateral_written :
          E.collaterals.save
            (record found.collateral {
              amount = to_string (
                  max (literal 0 0) (
                    sub (parse_float found.collateral.amount) (
                      taken
                        (parse_float found.debt.amount)
                        (price_of E.num found.debt_asset)
                        (bonus_rate (truthy found.collateral_asset.liquidation_penalty))
                        (price_of E.num found.collateral_asset)
                        (parse_float found.collateral.amount))));
            })
            db.collaterals
          ≡ some (collateral_row, collaterals)
      pub liquidations : E.liquidations.Rows
      pub event_written :
          let rate = bonus_rate (truthy found.collateral_asset.liquidation_penalty) in
          let seized =
            taken
              (parse_float found.debt.amount)
              (price_of E.num found.debt_asset)
              rate
              (price_of E.num found.collateral_asset)
              (parse_float found.collateral.amount) in
          E.liquidations.save
            (record {
              id = [];
              liquidator_id = found.liquidator.id;
              borrower_id = found.borrower.id;
              debt_asset_id = found.debt_asset.id;
              collateral_asset_id = found.collateral_asset.id;
              debt_amount = found.debt.amount;
              collateral_seized = to_string seized;
              bonus_amount = to_string (mul seized rate);
              tx_hash = codes "stub-" ++ to_text (pos now);
              block_number = none;
            })
            db.liquidations
          ≡ some (event, liquidations)
      pub rest : after ≡ record db {
        users = users;
        borrows = borrows;
        collaterals = collaterals;
        liquidations = liquidations;
      }
