-- ===== src/Oracle.antt =====
-- OracleAggregatorService and OracleScheduler (backend/src/modules/oracle).
pub mod Twap
pub mod Updates
pub mod Weights
use soro_lend.Prelude.{ℕ, Bool, true, false, Option, none, some, List, [], ◌∷◌, ◌++◌, if◌then◌else◌}
use soro_lend.Text.{Text, codes, truthy}
use soro_lend.Runtime.{Result, ok, err, plain}
use soro_lend.Schema.{Asset, PriceFeed}
use soro_lend.Store.{
  Env, Db, Action, ◌>>=◌, ◌>>◌, pure, raise, gets, or_raise, save_asset, save_feed, active_asset,
}

pub record Quote : Type 0 where
  pub price : Text
  pub source : Text

pub record Refresh : Type 0 where
  pub price : Text
  pub source : Text
  pub updated : Bool

-- The stubs of the two price sources.
unfoldable pub fetch_from_band : Text → Option Text
fetch_from_band asset_code = none

unfoldable pub fetch_from_pyth : Text → Option Text
fetch_from_pyth asset_code = none

module _ (E : Env) where
  find_asset : Text → Action E Asset
  find_asset asset_code = do
    asset ← gets (active_asset E asset_code)
    or_raise (plain (codes "Asset not found: " ++ asset_code)) asset

  -- The first source that has a price: the asset itself, Band, Pyth.
  abbrev pub quote : Text → Option Text → Option Text → Option Text → Action E Quote
  quote asset_code (some price) band pyth = pure (record { price = price; source = codes "stored" })
  quote asset_code none (some price) pyth = pure (record { price = price; source = codes "band" })
  quote asset_code none none (some price) = pure (record { price = price; source = codes "pyth" })
  quote asset_code none none none =
      raise (plain (codes "No price available for asset: " ++ asset_code))

  unfoldable pub get_price : Text → Action E Quote
  unfolding find_asset
  get_price asset_code = do
    asset ← find_asset asset_code
    quote asset_code (truthy asset.oracle_price) (truthy (fetch_from_band asset_code))
        (truthy (fetch_from_pyth asset_code))

  -- `Math.abs(a - b) / Math.max(a, b) <= DEVIATION_THRESHOLD`
  unfoldable pub agree : Text → Text → Bool
  agree band pyth =
      let a = E.num.parse_float band in
      let b = E.num.parse_float pyth in
      E.num.le (E.num.div (E.num.abs (E.num.sub a b)) (E.num.max a b)) (E.num.literal 2 2)

  -- `((bandNum + pythNum) / 2).toString()`
  unfoldable pub midpoint : Text → Text → Text
  midpoint band pyth =
      E.num.to_string (
        E.num.div (E.num.add (E.num.parse_float band) (E.num.parse_float pyth)) (E.num.literal 2 0))

  -- `selectedPrice` with its source.
  unfoldable pub select_price : Option Text → Option Text → Option Quote
  select_price none none = none
  select_price (some band) none = some (record { price = band; source = codes "band" })
  select_price none (some pyth) = some (record { price = pyth; source = codes "pyth" })
  select_price (some band) (some pyth) =
      if agree band pyth
      then some (record { price = midpoint band pyth; source = codes "aggregated" })
      else some (record { price = band; source = codes "band" })

  -- `asset.oraclePrice || '0'`
  abbrev pub stale_price : Option Text → Text
  stale_price none = codes "0"
  stale_price (some price) = price

  -- The time of a feed is set when it is saved.
  abbrev pub stored : ℕ → Asset → Option Quote → Action E Refresh
  stored now asset none = pure (record {
    price = stale_price (truthy asset.oracle_price);
    source = codes "stale";
    updated = false;
  })
  stored now asset (some q) = do
    save_asset E (record asset { oracle_price = some q.price; oracle_updated_at = some now })
    save_feed E
        (record { id = []; asset_id = asset.id; price = q.price; source = q.source; timestamp = 0 })
    pure (record { price = q.price; source = q.source; updated = true })

  -- The rest of `refreshPrice`, once the two sources have answered.
  unfoldable pub apply_prices : ℕ → Asset → Option Text → Option Text → Action E Refresh
  unfolding select_price
  apply_prices now asset band pyth = stored now asset (select_price (truthy band) (truthy pyth))

  unfoldable pub refresh_price : ℕ → Text → Action E Refresh
  unfolding find_asset
  refresh_price now asset_code = do
    asset ← find_asset asset_code
    apply_prices now asset (fetch_from_band asset_code) (fetch_from_pyth asset_code)

  -- OracleScheduler.refreshPrices: a refresh that throws is logged, and the loop goes on.
  unfoldable pub refresh_each : ℕ → List Asset → Db E → Db E
  refresh_each now [] db = db
  refresh_each now (asset ∷ assets) db = refresh_each now assets (refresh_price now asset.code db).1

  unfoldable pub refresh_prices : ℕ → Db E → Db E
  unfolding refresh_each
  refresh_prices now db = refresh_each now (E.assets.find (λ a. a.is_active) db.assets) db
