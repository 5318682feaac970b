-- ===== src/Analytics.antt =====
-- TvlService, ProtocolStatsService and ApyHistoryService (backend/src/modules/analytics).
pub mod Totals
use soro_lend.Prelude.{
  ℕ, ◌+◌, Bool, true, false, ◌&&◌, leb, if◌then◌else◌, ◌||◌, Option, none, some, List, [], ◌∷◌,
  ◌++◌, map, length,
}
use soro_lend.Text.{Text, codes, text_eq, is_among}
use soro_lend.Runtime.{plain}
use soro_lend.Valuation.{price_of}
use soro_lend.Schema.{User, Asset, MarketSnapshot}
use soro_lend.Store.{Env, Db, Action, ◌>>=◌, pure, gets, or_raise, active_asset, user_by_key}

pub record AssetValue : Type 0 where
  pub asset_code : Text
  pub amount : Text
  pub usd_value : Text

pub record TotalValue : Type 0 where
  pub total_usd : Text
  pub by_asset : List AssetValue

pub record AssetTvl : Type 0 where
  pub asset_code : Text
  pub total_supplied : Text
  pub total_borrowed : Text
  pub net_tvl : Text

pub record UserStats : Type 0 where
  pub total_supplied : Text
  pub total_borrowed : Text
  pub total_collateral : Text
  pub liquidation_events : ℕ

pub record GlobalStats : Type 0 where
  pub active_users : ℕ
  pub total_suppliers : ℕ
  pub total_borrowers : ℕ
  pub active_positions : ℕ
  pub total_liquidations : ℕ
  pub liquidation_volume_usd : Text

pub record ApyEntry : Type 0 where
  pub snapshot_at : ℕ
  pub supply_rate : Text
  pub borrow_rate : Text
  pub utilization_rate : Text

pub record Apy : Type 0 where
  pub supply_rate : Text
  pub borrow_rate : Text
  pub utilization_rate : Text

-- `COUNT(DISTINCT …)`
unfoldable pub count_distinct : List Text → ℕ
unfolding is_among
count_distinct [] = 0
count_distinct (t ∷ ts) = (if is_among t ts then 0 else 1) + count_distinct ts

module _ (E : Env) where
  -- `rows.reduce((s, p) => s + parseFloat(p.amount), 0)`
  pub sum_amounts : E.num.Value → List Text → E.num.Value
  sum_amounts total [] = total
  sum_amounts total (t ∷ ts) = sum_amounts (E.num.add total (E.num.parse_float t)) ts

  abbrev pub zero_value : E.num.Value
  zero_value = E.num.literal 0 0

  abbrev pub supplied_of : Text → Db E → E.num.Value
  supplied_of asset_id db =
      sum_amounts zero_value
        (map (λ p. p.amount) (E.supplies.find (λ p. text_eq p.asset_id asset_id) db.supplies))

  abbrev pub borrowed_of : Text → Db E → E.num.Value
  borrowed_of asset_id db =
      sum_amounts zero_value
        (map (λ p. p.amount) (E.borrows.find (λ p. text_eq p.asset_id asset_id) db.borrows))

  -- `asset.oraclePrice ? parseFloat(asset.oraclePrice) : 0`, times the total supply
  abbrev pub usd_of : Asset → Db E → E.num.Value
  usd_of asset db = E.num.mul (supplied_of asset.id db) (price_of E.num asset)

  -- The loop of `getTotalValueLocked`, on the total so far.
  unfoldable pub value_assets : E.num.Value → List Asset → Db E → E.num.Value × List AssetValue
  value_assets total [] db = (total, [])
  value_assets total (asset ∷ assets) db =
      let (sum, rest) = value_assets (E.num.add total (usd_of asset db)) assets db in
      let entry : AssetValue = record {
        asset_code = asset.code;
        amount = E.num.to_string (supplied_of asset.id db);
        usd_value = E.num.to_string (usd_of asset db);
      } in
      (sum, entry ∷ rest)

  unfoldable pub get_total_value_locked : Db E → TotalValue
  unfolding value_assets sum_amounts
  get_total_value_locked db =
      let (total, entries) =
        value_assets zero_value (E.assets.find (λ a. a.is_active) db.assets) db in
      record { total_usd = E.num.to_string total; by_asset = entries }

  unfoldable pub get_tvl_by_asset : Text → Action E AssetTvl
  unfolding sum_amounts
  get_tvl_by_asset asset_code = do
    found ← gets (active_asset E asset_code)
    asset ← or_raise (plain (codes "Asset not found: " ++ asset_code)) found
    total_supplied ← gets (supplied_of asset.id)
    total_borrowed ← gets (borrowed_of asset.id)
    pure (record {
      asset_code = asset_code;
      total_supplied = E.num.to_string total_supplied;
      total_borrowed = E.num.to_string total_borrowed;
      net_tvl = E.num.to_string (E.num.sub total_supplied total_borrowed);
    })

  -- `getUserStats`, for the user that was found; an event counts once, whichever side it names.
  abbrev stats_of : Option User → Db E → UserStats
  stats_of none db = record {
    total_supplied = codes "0";
    total_borrowed = codes "0";
    total_collateral = codes "0";
    liquidation_events = 0;
  }
  stats_of (some user) db = record {
    total_supplied = E.num.to_string (
        sum_amounts zero_value
          (map (λ p. p.amount) (E.supplies.find (λ p. text_eq p.user_id user.id) db.supplies)));
    total_borrowed = E.num.to_string (
        sum_amounts zero_value
          (map (λ p. p.amount) (E.borrows.find (λ p. text_eq p.user_id user.id) db.borrows)));
    total_collateral = E.num.to_string (
        sum_amounts zero_value (
          map (λ p. p.amount)
            (E.collaterals.find (λ p. text_eq p.user_id user.id) db.collaterals)));
    liquidation_events = length (
        E.liquidations.find (λ e. text_eq e.borrower_id user.id || text_eq e.liquidator_id user.id)
          db.liquidations);
  }

  unfoldable pub get_user_stats : Text → Db E → UserStats
  unfolding sum_amounts
  get_user_stats address db = stats_of (user_by_key E address db) db

  abbrev pub apy_of : MarketSnapshot → Apy
  apy_of s = record {
    supply_rate = s.supply_rate;
    borrow_rate = s.borrow_rate;
    utilization_rate = s.utilization_rate;
  }

  -- `findOne({ where, order: { snapshotAt: 'DESC' } })`: the newest row, if there is one.
  abbrev pub latest_of : List MarketSnapshot → Option Apy
  latest_of [] = none
  latest_of (s ∷ ss) = some (apy_of s)

  unfoldable pub get_latest_apy : Text → Db E → Option Apy
  get_latest_apy asset_id db =
      latest_of (E.snapshots.find_newest (λ s. text_eq s.asset_id asset_id) db.snapshots)

  -- The dates are in milliseconds, and `Between` takes both ends in.
  unfoldable pub get_apy_history : Text → ℕ → ℕ → Db E → List ApyEntry
  get_apy_history asset_id start_date end_date db =
      map
        (λ s. record {
          snapshot_at = s.snapshot_at;
          supply_rate = s.supply_rate;
          borrow_rate = s.borrow_rate;
          utilization_rate = s.utilization_rate;
        })
        (E.snapshots.find_oldest
          (λ s.
            text_eq s.asset_id asset_id
            && leb start_date s.snapshot_at
            && leb s.snapshot_at end_date)
          db.snapshots)

  -- `MoreThan('0')` is the database's comparison of a numeric column.
  unfoldable pub get_global_stats : (Text → Bool) → Db E → GlobalStats
  unfolding sum_amounts count_distinct
  get_global_stats is_positive db = record {
    active_users = length (E.users.find (λ _. true) db.users);
    total_suppliers =
        count_distinct (map (λ p. p.user_id) (E.supplies.find (λ _. true) db.supplies));
    total_borrowers = count_distinct (map (λ p. p.user_id) (E.borrows.find (λ _. true) db.borrows));
    active_positions =
        length (E.supplies.find (λ p. is_positive p.amount) db.supplies)
        + length (E.borrows.find (λ p. is_positive p.amount) db.borrows)
        + length (E.collaterals.find (λ p. is_positive p.amount) db.collaterals);
    total_liquidations = length (E.liquidations.find (λ _. true) db.liquidations);
    liquidation_volume_usd = E.num.to_string (
        sum_amounts zero_value
          (map (λ l. l.debt_amount) (E.liquidations.find (λ _. true) db.liquidations)));
  }
