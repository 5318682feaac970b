-- ===== src/Lending.antt =====
-- LendingService (backend/src/modules/lending/lending.service.ts).
pub mod Solvency
pub mod Ledger
pub mod Failures
pub mod RoundTrip
pub mod Scheduler
use soro_lend.Prelude.{ℕ, Bool, Option, none, some, List, map, ◌++◌, []}
use soro_lend.Prelude.Int.{ℤ, ◌+ℤ◌, ◌-ℤ◌, ltb_ℤ}
use soro_lend.Text.{Text, codes}
use soro_lend.Text.Decimal.{to_text}
use soro_lend.Runtime.{not_found, bad_request, ok}
use soro_lend.Schema.{User, Asset, SupplyPosition}
use soro_lend.Store.{
  Env, Db, Action, ◌>>=◌, ◌>>◌, pure, gets, or_raise, raise_if, to_bigint, save_supply, supply_of,
  user_by_key, active_asset, supplies_of,
}
use soro_lend.Accounts.{find_asset_by_code, find_or_create_user}

abbrev pub first_index : Text
first_index = codes "1000000000000000000"

-- An entry of `getMarkets`, and one of `getPositions`.
pub record Market : Type 0 where
  pub id : Text
  pub code : Text
  pub decimals : ℕ
  pub oracle_price : Option Text
  pub oracle_updated_at : Option ℕ
  pub ltv_ratio : Option Text
  pub liquidation_threshold : Option Text
  pub liquidation_penalty : Option Text
  pub reserve_factor : Option Text
  pub is_active : Bool

pub record SupplyView : Type 0 where
  pub id : Text
  pub asset_code : Text
  pub amount : Text
  pub shares : Text
  pub supply_index : Text
  pub asset_decimals : ℕ

unfoldable pub build_market_response : Asset → Market
build_market_response a = record {
  id = a.id;
  code = a.code;
  decimals = a.decimals;
  oracle_price = a.oracle_price;
  oracle_updated_at = a.oracle_updated_at;
  ltv_ratio = a.ltv_ratio;
  liquidation_threshold = a.liquidation_threshold;
  liquidation_penalty = a.liquidation_penalty;
  reserve_factor = a.reserve_factor;
  is_active = a.is_active;
}

abbrev supply_view : SupplyPosition × Asset → SupplyView
supply_view (p, a) = record {
  id = p.id;
  asset_code = a.code;
  amount = p.amount;
  shares = p.shares;
  supply_index = p.supply_index;
  asset_decimals = a.decimals;
}

module _ (E : Env) where
  -- The `if (position)` of `supply`: the position with the amount added, or a new one.
  unfoldable pub credited : User → Asset → Text → Option SupplyPosition → Action E SupplyPosition
  credited user asset amount (some p) = do
    current ← to_bigint p.amount
    added ← to_bigint amount
    pure (record p { amount = to_text (current +ℤ added) })
  credited user asset amount none = pure (record {
    id = [];
    user_id = user.id;
    asset_id = asset.id;
    amount = amount;
    shares = amount;
    supply_index = first_index;
  })

  unfoldable pub supply : Text → Text → Text → Action E SupplyPosition
  unfolding credited find_asset_by_code find_or_create_user
  supply public_key asset_code amount = do
    asset ← find_asset_by_code E asset_code
    user ← find_or_create_user E public_key
    found ← gets (supply_of E user.id asset.id)
    position ← credited user asset amount found
    save_supply E position

  unfoldable pub withdraw : Text → Text → Text → Action E SupplyPosition
  unfolding find_asset_by_code find_or_create_user
  withdraw public_key asset_code amount = do
    asset ← find_asset_by_code E asset_code
    user ← find_or_create_user E public_key
    found ← gets (supply_of E user.id asset.id)
    position ← or_raise (not_found (codes "Supply position not found")) found
    current ← to_bigint position.amount
    withdrawal ← to_bigint amount
    raise_if (ltb_ℤ current withdrawal) (bad_request (codes "Insufficient supply balance"))
    save_supply E (record position { amount = to_text (current -ℤ withdrawal) })

  unfoldable pub get_markets : Db E → List Market
  get_markets db = map build_market_response (E.assets.find (λ a. a.is_active) db.assets)

  unfoldable pub get_market : Text → Action E Market
  get_market asset_code = do
    found ← gets (active_asset E asset_code)
    asset ← or_raise (not_found (codes "Market not found for asset: " ++ asset_code)) found
    pure (build_market_response asset)

  abbrev positions_of : Option User → Db E → List SupplyView
  positions_of none db = []
  positions_of (some user) db = map supply_view (supplies_of E user.id db)

  unfoldable pub get_positions : Text → Db E → List SupplyView
  get_positions address db = positions_of (user_by_key E address db) db
