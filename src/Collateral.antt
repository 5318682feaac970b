-- ===== src/Collateral.antt =====
-- CollateralService (backend/src/modules/collateral/collateral.service.ts).
pub mod Solvency
pub mod Balances
pub mod Guard
use soro_lend.Prelude.{
  ℕ, Bool, true, false, Option, none, some, List, [], ◌∷◌, map, not, if◌then◌else◌,
}
use soro_lend.Prelude.Int.{ℤ, ◌+ℤ◌, ◌-ℤ◌, ltb_ℤ}
use soro_lend.Text.{Text, codes, truthy}
use soro_lend.Text.Decimal.{to_text}
use soro_lend.Runtime.{not_found, bad_request, ok}
use soro_lend.Schema.{User, Asset, CollateralPosition, BorrowPosition}
use soro_lend.Store.{
  Env, Db, Action, ◌>>=◌, ◌>>◌, pure, gets, or_raise, raise_if, to_bigint, save_collateral,
  collateral_of, user_by_key, borrows_of, collaterals_of,
}
use soro_lend.Accounts.{find_asset_by_code, find_or_create_user}
use soro_lend.Valuation.{weigh_collateral, collateral_value, debt_value}

pub record CollateralView : Type 0 where
  pub id : Text
  pub asset_code : Text
  pub amount : Text
  pub asset_decimals : ℕ
  pub oracle_price : Option Text
  pub estimated_value_usd : Text

pub record MaxBorrow : Type 0 where
  pub max_borrow_usd : Text
  pub total_collateral_usd : Text
  pub current_borrow_usd : Text

module _ (E : Env) where
  unfoldable pub estimate_usd_value : Text → Asset → Text
  estimate_usd_value amount asset = elim (truthy asset.oracle_price) [
    | none ↦ codes "0"
    | some price ↦
        E.num.to_fixed 18 (E.num.mul (E.num.parse_float amount) (E.num.parse_float price))
  ]

  abbrev collateral_view : CollateralPosition × Asset → CollateralView
  collateral_view (p, a) = record {
    id = p.id;
    asset_code = a.code;
    amount = p.amount;
    asset_decimals = a.decimals;
    oracle_price = a.oracle_price;
    estimated_value_usd = estimate_usd_value p.amount a;
  }

  -- The `if (position)` of `deposit`.
  unfoldable pub deposited :
      User → Asset → Text → Option CollateralPosition → Action E CollateralPosition
  deposited user asset amount (some p) = do
    current ← to_bigint p.amount
    added ← to_bigint amount
    pure (record p { amount = to_text (current +ℤ added) })
  deposited user asset amount none =
      pure (record { id = []; user_id = user.id; asset_id = asset.id; amount = amount })

  unfoldable pub deposit : Text → Text → Text → Action E CollateralPosition
  unfolding deposited find_asset_by_code find_or_create_user
  deposit public_key asset_code amount = do
    user ← find_or_create_user E public_key
    asset ← find_asset_by_code E asset_code
    found ← gets (collateral_of E user.id asset.id)
    position ← deposited user asset amount found
    save_collateral E position

  -- No debt to cover, a debt worth 0, or a health factor above 1. The code does not read what
  -- would remain of the collateral.
  unfoldable pub validate_withdraw_preserves_health : Text → Text → Db E → Bool
  validate_withdraw_preserves_health user_id _ db = elim (borrows_of E user_id db) [
    | [] ↦ true
    | b ∷ rest ↦
        let collateral = collateral_value E.num (collaterals_of E user_id db) in
        let debt = debt_value E.num (b ∷ rest) in
        if E.num.eq debt (E.num.literal 0 0)
        then true
        else E.num.lt (E.num.literal 1 0) (E.num.div collateral debt)
  ]

  unfoldable pub withdraw : Text → Text → Text → Action E CollateralPosition
  unfolding find_asset_by_code find_or_create_user
  withdraw public_key asset_code amount = do
    user ← find_or_create_user E public_key
    asset ← find_asset_by_code E asset_code
    found ← gets (collateral_of E user.id asset.id)
    position ← or_raise (not_found (codes "Collateral position not found")) found
    current ← to_bigint position.amount
    withdrawal ← to_bigint amount
    raise_if (ltb_ℤ current withdrawal) (bad_request (codes "Insufficient collateral balance"))
    let remaining = to_text (current -ℤ withdrawal)
    health_ok ← gets (validate_withdraw_preserves_health user.id remaining)
    raise_if (not health_ok) (bad_request (codes "Withdrawal would make health factor too low"))
    save_collateral E (record position { amount = remaining })

  abbrev portfolio_of : Option User → Db E → List CollateralView
  portfolio_of none db = []
  portfolio_of (some user) db = map collateral_view (collaterals_of E user.id db)

  unfoldable pub get_portfolio : Text → Db E → List CollateralView
  get_portfolio address db = portfolio_of (user_by_key E address db) db

  abbrev max_borrow_of : Option User → Db E → MaxBorrow
  max_borrow_of none db = record {
    max_borrow_usd = codes "0";
    total_collateral_usd = codes "0";
    current_borrow_usd = codes "0";
  }
  max_borrow_of (some user) db =
      let collateral =
        weigh_collateral E.num (λ a. a.ltv_ratio) (E.num.literal 0 0)
          (collaterals_of E user.id db) in
      let debt = debt_value E.num (borrows_of E user.id db) in
      record {
        max_borrow_usd =
            E.num.to_fixed 18 (E.num.max (E.num.literal 0 0) (E.num.sub collateral debt));
        total_collateral_usd = E.num.to_fixed 18 collateral;
        current_borrow_usd = E.num.to_fixed 18 debt;
      }

  unfoldable pub get_max_borrow : Text → Db E → MaxBorrow
  get_max_borrow address db = max_borrow_of (user_by_key E address db) db
