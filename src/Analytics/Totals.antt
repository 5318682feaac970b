-- ===== src/Analytics/Totals.antt =====
-- The total value locked, as a sum over the active assets.
use soro_lend.Prelude.{◌≡◌, refl, List, [], ◌∷◌, map}
use soro_lend.Schema.{Asset}
use soro_lend.Store.{Env, Db}
use soro_lend.Analytics.{
  AssetValue, supplied_of, usd_of, zero_value, value_assets, get_total_value_locked,
}

module _ (E : Env) (db : Db E) where
  -- The entry of one asset: what is supplied of it, and that at its price.
  abbrev pub entry_of : Asset → AssetValue
  entry_of asset = record {
    asset_code = asset.code;
    amount = E.num.to_string (supplied_of E asset.id db);
    usd_value = E.num.to_string (usd_of E asset db);
  }

  -- The worth of the supplies of the assets, added up from the left.
  abbrev pub sum_usd : E.num.Value → List Asset → E.num.Value
  sum_usd total [] = total
  sum_usd total (asset ∷ assets) = sum_usd (E.num.add total (usd_of E asset db)) assets

  value_assets-map :
      (total : E.num.Value) (assets : List Asset)
      → value_assets E total assets db ≡ (sum_usd total assets, map entry_of assets)
  unfolding value_assets
  value_assets-map total [] = refl
  value_assets-map total (asset ∷ assets) =
      rw (value_assets-map (E.num.add total (usd_of E asset db)) assets)

  -- The report has an entry for each active asset, in their order, and its total is the sum of what the
  -- entries are worth.
  pub get_total_value_locked-map :
      let active = E.assets.find (λ a. a.is_active) db.assets in
      get_total_value_locked E db ≡ record {
        total_usd = E.num.to_string (sum_usd (zero_value E) active);
        by_asset = map entry_of active;
      }
  unfolding get_total_value_locked
  get_total_value_locked-map =
      rw (value_assets-map (zero_value E) (E.assets.find (λ a. a.is_active) db.assets))
