-- ===== src/Liquidation/Bot.antt =====
-- LiquidationBot (backend/src/modules/liquidation/liquidation.bot.ts): one scan, as the notices that
-- it broadcasts and the database that it leaves. The log lines are left out.
use soro_lend.Prelude.{ℕ, Option, none, some, List, [], ◌∷◌, ◌++◌, if◌then◌else◌}
use soro_lend.Text.{Text, codes}
use soro_lend.Runtime.{Number, Result, ok, err}
use soro_lend.Schema.{Asset, BorrowPosition, CollateralPosition, LiquidationEvent}
use soro_lend.Store.{Env, Db, borrows_of, collaterals_of}
use soro_lend.Valuation.{price_of}
use soro_lend.Liquidation.{AtRisk, get_at_risk_positions, liquidate}

pub record Cover : Type 0 where
  pub debt_asset_code : Text
  pub collateral_asset_code : Text

-- What `broadcastLiquidationEvent` is given.
pub record Notice (N : Number) : Type 0 where
  pub borrower : Text
  pub health_factor : N.Value
  pub debt_asset : Text
  pub collateral_asset : Text
  pub timestamp : ℕ

module _ (E : Env) where
  -- `borrows.reduce(…)`, from the first element
  unfoldable pub largest_borrow :
      BorrowPosition × Asset → List (BorrowPosition × Asset) → BorrowPosition × Asset
  largest_borrow best [] = best
  largest_borrow best (b ∷ rest) =
      largest_borrow
        (if E.num.lt (E.num.parse_float best.0.amount) (E.num.parse_float b.0.amount)
          then b
          else best)
        rest

  abbrev pub worth : CollateralPosition × Asset → E.num.Value
  worth c = E.num.mul (price_of E.num c.1) (E.num.parse_float c.0.amount)

  -- `collaterals.reduce(…)`, from the first element
  unfoldable pub best_collateral :
      CollateralPosition × Asset → List (CollateralPosition × Asset) → CollateralPosition × Asset
  best_collateral best [] = best
  best_collateral best (c ∷ rest) =
      best_collateral (if E.num.lt (worth best) (worth c) then c else best) rest

  abbrev pub cover_of :
      List (BorrowPosition × Asset) → List (CollateralPosition × Asset) → Option Cover
  cover_of [] collaterals = none
  cover_of (b ∷ borrows) [] = none
  cover_of (b ∷ borrows) (c ∷ collaterals) = some (record {
    debt_asset_code = (largest_borrow b borrows).1.code;
    collateral_asset_code = (best_collateral c collaterals).1.code;
  })

  unfoldable pub calculate_optimal_debt_cover : Text → Db E → Option Cover
  unfolding largest_borrow best_collateral
  calculate_optimal_debt_cover user_id db =
      cover_of (borrows_of E user_id db) (collaterals_of E user_id db)

  abbrev pub notice_of : ℕ → AtRisk E.num → Cover → Notice E.num
  notice_of now position cover = record {
    borrower = position.public_key;
    health_factor = position.health.health_factor;
    debt_asset = cover.debt_asset_code;
    collateral_asset = cover.collateral_asset_code;
    timestamp = now;
  }

  -- A liquidation that throws is logged and broadcasts nothing; what it wrote stays written.
  abbrev pub announced :
      ℕ → AtRisk E.num → Cover → Result LiquidationEvent × Db E → List (Notice E.num) × Db E
  announced now position cover (ok event, db) = (notice_of now position cover ∷ [], db)
  announced now position cover (err e, db) = ([], db)

  abbrev pub visit_cover : ℕ → AtRisk E.num → Option Cover → Db E → List (Notice E.num) × Db E
  visit_cover now position none db = ([], db)
  visit_cover now position (some cover) db = announced now position cover (
      liquidate E now (codes "liquidation-bot") position.user_id cover.debt_asset_code
        cover.collateral_asset_code db)

  -- One round of the loop.
  unfoldable pub visit : ℕ → AtRisk E.num → Db E → List (Notice E.num) × Db E
  visit now position db =
      visit_cover now position (calculate_optimal_debt_cover position.user_id db) db

  unfoldable pub visit_all : ℕ → List (AtRisk E.num) → Db E → List (Notice E.num) × Db E
  visit_all now [] db = ([], db)
  visit_all now (position ∷ rest) db =
      let (notices, db') = visit now position db in
      let (more, db'') = visit_all now rest db' in (notices ++ more, db'')

  unfoldable pub scan_and_liquidate : ℕ → Db E → List (Notice E.num) × Db E
  unfolding visit_all visit
  scan_and_liquidate now db = visit_all now (get_at_risk_positions E db) db
