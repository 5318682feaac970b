-- ===== src/Oracle/Updates.antt =====
-- Which price a refresh chooses, and that the stubbed sources never change one.
use soro_lend.Prelude.{
  ℕ, ◌≡◌, refl, true, false, Option, none, some, List, [], ◌∷◌, arith, if◌then◌else◌,
}
use soro_lend.Text.{Text, codes, truthy}
use soro_lend.Runtime.{ok}
use soro_lend.Schema.{Asset, PriceFeed}
use soro_lend.Store.{Env, Db}
use soro_lend.Oracle.{
  fetch_from_band, fetch_from_pyth, Quote, Refresh, agree, midpoint, select_price, apply_prices,
  refresh_price, refresh_each, refresh_prices,
}

module _ (E : Env) where
  -- A refresh changes nothing in the database, and where it returns it says so.
  pub refresh_price_keeps :
      (now : ℕ) (code : Text) (db : Db E) {r : Refresh} {db' : Db E}
      → refresh_price E now code db ≡ (ok r, db')
      → (db' ≡ db) × (r.updated ≡ false) × (r.source ≡ codes "stale")
  unfolding refresh_price apply_prices fetch_from_band fetch_from_pyth
  refresh_price_keeps now code db done = ground arith

  refresh_price-db : (now : ℕ) (code : Text) (db : Db E) → (refresh_price E now code db).1 ≡ db
  unfolding refresh_price apply_prices fetch_from_band fetch_from_pyth
  refresh_price-db now code db = ground arith

  refresh_each-db : (now : ℕ) (assets : List Asset) (db : Db E) → refresh_each E now assets db ≡ db
  unfolding refresh_each
  refresh_each-db now [] db = refl
  refresh_each-db now (a ∷ assets) db =
      rw (refresh_price-db now a.code db) (refresh_each-db now assets db)

  -- A round of the scheduler over all active assets leaves the database as it was: with both sources
  -- stubbed no price ever changes.
  pub refresh_prices_keeps : (now : ℕ) (db : Db E) → refresh_prices E now db ≡ db
  unfolding refresh_prices
  refresh_prices_keeps now db = refresh_each-db now (E.assets.find (λ a. a.is_active) db.assets) db

  -- The price that is chosen from two answers: nothing without an answer, the only answer, the
  -- midpoint of two that agree, and Band's of two that do not.
  pub select_price_cases :
      (band pyth : Text)
      → (select_price E none none ≡ none)
        × (select_price E (some band) none ≡ some (record { price = band; source = codes "band" }))
        × (select_price E none (some pyth) ≡ some (record { price = pyth; source = codes "pyth" }))
        × (select_price E (some band) (some pyth) ≡ (
            if agree E band pyth
            then some (record { price = midpoint E band pyth; source = codes "aggregated" })
            else some (record { price = band; source = codes "band" })))
  unfolding select_price
  select_price_cases band pyth = (refl, refl, refl, refl)

  -- If the sources gave answers to choose from and the database took both writes, a refresh would
  -- store the chosen price with its time, add it to the feed and report it.
  pub apply_prices_stores :
      (now : ℕ) (asset : Asset) (band pyth : Option Text) (db : Db E) {q : Quote} {a : Asset}
      {t : E.assets.Rows} {f : PriceFeed} {s : E.feeds.Rows}
      → select_price E (truthy band) (truthy pyth) ≡ some q
      → E.assets.save
          (record asset { oracle_price = some q.price; oracle_updated_at = some now })
          db.assets
        ≡ some (a, t)
      → E.feeds.save
          (record {
            id = [];
            asset_id = asset.id;
            price = q.price;
            source = q.source;
            timestamp = 0;
          })
          db.feeds
        ≡ some (f, s)
      → apply_prices E now asset band pyth db ≡ (
        ok (record { price = q.price; source = q.source; updated = true }),
        record db { assets = t; feeds = s },
      )
  unfolding apply_prices
  apply_prices_stores now asset band pyth db chosen first second = ground arith
