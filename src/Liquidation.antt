-- ===== src/Liquidation.antt =====
-- LiquidationService (backend/src/modules/liquidation/liquidation.service.ts).
pub mod Bot
pub mod Choice
pub mod Frame
pub mod Risk
pub mod Settlement
pub mod Outcomes
pub mod Returned
pub mod Solvency
use soro_lend.Prelude.{
  ℕ, Bool, true, false, ◌&&◌, ◌||◌, Option, none, some, List, [], ◌∷◌, ◌++◌, if◌then◌else◌,
}
use soro_lend.Prelude.Int.{pos}
use soro_lend.Text.{Text, codes, truthy}
use soro_lend.Text.Decimal.{to_text}
use soro_lend.Runtime.{Number, plain, ok}
use soro_lend.Schema.{User, Asset, BorrowPosition, CollateralPosition, LiquidationEvent}
use soro_lend.Store.{
  Env, Db, Action, ◌>>=◌, ◌>>◌, pure, gets, or_raise, raise_if, save_borrow, save_collateral,
  save_liquidation, borrow_of, collateral_of, user_by_id, active_asset, borrows_of, collaterals_of,
}
use soro_lend.Accounts.{find_or_create_user}
use soro_lend.Valuation.{number_or_zero, price_of, collateral_value, debt_value}

pub record HealthFactor (N : Number) : Type 0 where
  pub health_factor : N.Value
  pub total_collateral_usd : N.Value
  pub total_borrow_usd : N.Value

pub record AtRisk (N : Number) : Type 0 where
  pub user_id : Text
  pub public_key : Text
  pub health : HealthFactor N

module _ (E : Env) where
  -- HEALTH_FACTOR_BUFFER
  abbrev pub health_factor_buffer : E.num.Value
  health_factor_buffer = E.num.literal 105 2

  -- `totalBorrowUsd > 0 ? totalCollateralUsd / totalBorrowUsd : 999.9999`
  abbrev pub ratio_or_top : E.num.Value → E.num.Value → E.num.Value
  ratio_or_top collateral debt =
      if E.num.lt (E.num.literal 0 0) debt
      then E.num.div collateral debt
      else E.num.literal 9999999 4

  unfoldable pub compute_health_factor : Text → Db E → Option (HealthFactor E.num)
  compute_health_factor user_id db = elim (borrows_of E user_id db) [
    | [] ↦ none
    | b ∷ rest ↦
        let collateral = collateral_value E.num (collaterals_of E user_id db) in
        let debt = debt_value E.num (b ∷ rest) in
        some (record {
          health_factor = ratio_or_top collateral debt;
          total_collateral_usd = collateral;
          total_borrow_usd = debt;
        })
  ]

  abbrev pub at_risk_test : HealthFactor E.num → Bool
  at_risk_test h =
      E.num.lt h.health_factor health_factor_buffer && E.num.lt (E.num.literal 0 0) h.health_factor

  -- The body of the loop of `getAtRiskPositions`: what one user adds to the list.
  abbrev pub risk_of : User → Option (HealthFactor E.num) → List (AtRisk E.num)
  risk_of user none = []
  risk_of user (some h) =
      if at_risk_test h
      then record { user_id = user.id; public_key = user.public_key; health = h } ∷ []
      else []

  unfoldable pub at_risk_among : List User → Db E → List (AtRisk E.num)
  at_risk_among [] db = []
  at_risk_among (user ∷ users) db =
      risk_of user (compute_health_factor user.id db) ++ at_risk_among users db

  unfoldable pub get_at_risk_positions : Db E → List (AtRisk E.num)
  unfolding at_risk_among
  get_at_risk_positions db = at_risk_among (E.users.find (λ _. true) db.users) db

  -- `asset.liquidationPenalty ? parseFloat(asset.liquidationPenalty) : 0.05`
  abbrev pub penalty_rate : Asset → E.num.Value
  penalty_rate a = elim (truthy a.liquidation_penalty) [
    | none ↦ E.num.literal 5 2
    | some t ↦ E.num.parse_float t
  ]

  -- The amounts of a liquidation, from the two positions and their assets.
  abbrev pub debt_usd : BorrowPosition → Asset → E.num.Value
  debt_usd debt debt_asset = E.num.mul (E.num.parse_float debt.amount) (price_of E.num debt_asset)

  unfoldable pub seized : BorrowPosition → Asset → CollateralPosition → Asset → E.num.Value
  seized debt debt_asset collateral collateral_asset =
      E.num.min
        (E.num.div
          (E.num.mul (debt_usd debt debt_asset)
            (E.num.add (E.num.literal 1 0) (penalty_rate collateral_asset)))
          (price_of E.num collateral_asset))
        (E.num.parse_float collateral.amount)

  unfoldable pub debt_after : BorrowPosition → Asset → E.num.Value
  debt_after debt debt_asset = E.num.max (E.num.literal 0 0) (
      E.num.sub (E.num.parse_float debt.amount)
        (E.num.div (debt_usd debt debt_asset) (price_of E.num debt_asset)))

  unfoldable pub collateral_after : CollateralPosition → E.num.Value → E.num.Value
  collateral_after collateral taken =
      E.num.max (E.num.literal 0 0) (E.num.sub (E.num.parse_float collateral.amount) taken)

  -- The `create` of `liquidate`.
  unfoldable pub event_of :
      ℕ → User → User → Asset → Asset → BorrowPosition → CollateralPosition → LiquidationEvent
  event_of now liquidator borrower debt_asset collateral_asset debt collateral =
      let taken = seized debt debt_asset collateral collateral_asset in
      record {
        id = [];
        liquidator_id = liquidator.id;
        borrower_id = borrower.id;
        debt_asset_id = debt_asset.id;
        collateral_asset_id = collateral_asset.id;
        debt_amount = debt.amount;
        collateral_seized = E.num.to_string taken;
        bonus_amount = E.num.to_string (E.num.mul taken (penalty_rate collateral_asset));
        tx_hash = codes "stub-" ++ to_text (pos now);
        block_number = none;
      }

  -- The writes of `liquidate`, once everything was found.
  unfoldable pub settle :
      ℕ
      → User
      → User
      → Asset
      → Asset
      → BorrowPosition
      → CollateralPosition
      → Action E LiquidationEvent
  settle now liquidator borrower debt_asset collateral_asset debt collateral = do
    let taken = seized debt debt_asset collateral collateral_asset
    save_borrow E (record debt { amount = E.num.to_string (debt_after debt debt_asset) })
    save_collateral E
        (record collateral { amount = E.num.to_string (collateral_after collateral taken) })
    save_liquidation E
        (event_of now liquidator borrower debt_asset collateral_asset debt collateral)

  unfoldable pub liquidate : ℕ → Text → Text → Text → Text → Action E LiquidationEvent
  unfolding find_or_create_user
  liquidate now liquidator_key borrower_id debt_code collateral_code = do
    liquidator ← find_or_create_user E liquidator_key
    borrower? ← gets (user_by_id E borrower_id)
    borrower ← or_raise (plain (codes "Borrower not found")) borrower?
    debt_asset? ← gets (active_asset E debt_code)
    collateral_asset? ← gets (active_asset E collateral_code)
    debt_asset ← or_raise (plain (codes "Asset not found")) debt_asset?
    collateral_asset ← or_raise (plain (codes "Asset not found")) collateral_asset?
    debt? ← gets (borrow_of E borrower_id debt_asset.id)
    debt ← or_raise (plain (codes "Debt position not found")) debt?
    collateral? ← gets (collateral_of E borrower_id collateral_asset.id)
    collateral ← or_raise (plain (codes "Collateral position not found")) collateral?
    raise_if
        (E.num.eq (price_of E.num debt_asset) (E.num.literal 0 0)
          || E.num.eq (price_of E.num collateral_asset) (E.num.literal 0 0))
        (plain (codes "Oracle price not available"))
    settle now liquidator borrower debt_asset collateral_asset debt collateral
