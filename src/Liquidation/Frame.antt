-- ===== src/Liquidation/Frame.antt =====
-- What liquidations and scans of the bot leave alone.
use soro_lend.Prelude.{◌≡◌, refl, ◌∙◌, ℕ, Option, none, some, List, [], ◌∷◌, arith}
use soro_lend.Text.{Text}
use soro_lend.Runtime.{Result, ok, err}
use soro_lend.Store.{Env, Db}
use soro_lend.Liquidation.{AtRisk, liquidate, settle, get_at_risk_positions}
use soro_lend.Liquidation.Bot.{
  Cover, announced, visit_cover, visit, visit_all, scan_and_liquidate, calculate_optimal_debt_cover,
}

-- The tables that a liquidation does not write are as they were.
abbrev pub KeepsRest : (E : Env) → Db E → Db E → Type 0
KeepsRest E db db' =
    (db'.assets ≡ db.assets)
    × (db'.supplies ≡ db.supplies)
    × (db'.snapshots ≡ db.snapshots)
    × (db'.feeds ≡ db.feeds)
    × (db'.proposals ≡ db.proposals)
    × (db'.votes ≡ db.votes)

module _ (E : Env) where
  KeepsRest-trans : (d e f : Db E) → KeepsRest E d e → KeepsRest E e f → KeepsRest E d f
  KeepsRest-trans d e f (a, b, c, g, h, i) (a', b', c', g', h', i') =
      (a' ∙ a, b' ∙ b, c' ∙ c, g' ∙ g, h' ∙ h, i' ∙ i)

  -- A liquidation, whether it returns or throws, writes no asset, supply, snapshot, price, proposal or
  -- vote.
  pub liquidate-KeepsRest :
      (now : ℕ) (key id debt_code collateral_code : Text) (db : Db E)
      → KeepsRest E db (liquidate E now key id debt_code collateral_code db).1
  unfolding liquidate settle
  liquidate-KeepsRest now key id debt_code collateral_code db = ground arith

  pub announced-db :
      (now : ℕ) (position : AtRisk E.num) (cover : Cover) (o : Result _ × Db E)
      → (announced E now position cover o).1 ≡ o.1
  announced-db now position cover (ok event, db) = refl
  announced-db now position cover (err e, db) = refl

  visit_cover-KeepsRest :
      (now : ℕ) (position : AtRisk E.num) (cover : Option Cover) (db : Db E)
      → KeepsRest E db (visit_cover E now position cover db).1
  visit_cover-KeepsRest now position none db = (refl, refl, refl, refl, refl, refl)
  visit_cover-KeepsRest now position (some cover) db = rw (announced-db now position cover _) (
      liquidate-KeepsRest now _ position.user_id cover.debt_asset_code cover.collateral_asset_code
        db)

  visit_all-KeepsRest :
      (now : ℕ) (positions : List (AtRisk E.num)) (db : Db E)
      → KeepsRest E db (visit_all E now positions db).1
  unfolding visit_all visit
  visit_all-KeepsRest now [] db = (refl, refl, refl, refl, refl, refl)
  visit_all-KeepsRest now (position ∷ rest) db =
      let db' = (visit E now position db).1 in
      KeepsRest-trans db db' (visit_all E now rest db').1
        (visit_cover-KeepsRest now position (calculate_optimal_debt_cover E position.user_id db) db)
        (visit_all-KeepsRest now rest db')

  -- A scan of the bot, with all its liquidations, failed ones included, writes no asset, supply,
  -- snapshot, price, proposal or vote.
  pub scan_and_liquidate-KeepsRest :
      (now : ℕ) (db : Db E) → KeepsRest E db (scan_and_liquidate E now db).1
  unfolding scan_and_liquidate
  scan_and_liquidate-KeepsRest now db = visit_all-KeepsRest now (get_at_risk_positions E db) db
