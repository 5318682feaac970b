-- ===== src/Liquidation/Solvency.antt =====
-- Liquidations and scans of the bot leave no debt and no collateral negative.
use soro_lend.Prelude.{
  ◌≡◌, refl, true, ℕ, Option, none, some, List, [], ◌∷◌, arith, inl, inr, Option-cases, ◌⊎◌,
}
use soro_lend.Liquidation.Frame.{announced-db}
use soro_lend.Liquidation.Bot.{
  Cover, visit_cover, visit, visit_all, scan_and_liquidate, calculate_optimal_debt_cover,
}
use soro_lend.Prelude.Int.{ℤ}
use soro_lend.Text.{Text}
use soro_lend.Runtime.{Result}
use soro_lend.Schema.{User, Asset, BorrowPosition, CollateralPosition, LiquidationEvent}
use soro_lend.Store.{Env, Db, borrow_of, collateral_of}
use soro_lend.Store.Positions.{Fits-found}
use soro_lend.Store.Natural.{Natural, natural_or_none, save_value-Natural}
use soro_lend.Borrowing.Debts.{borrow_positions, BorrowLaws}
use soro_lend.Borrowing.Solvency.{NaturalDebts}
use soro_lend.Collateral.Balances.{collateral_positions, CollateralLaws}
use soro_lend.Collateral.Solvency.{NaturalCollaterals}
use soro_lend.Liquidation.{
  AtRisk, liquidate, settle, debt_after, collateral_after, get_at_risk_positions,
}
use soro_lend.Liquidation.Settlement.{paid, reduced}
use soro_lend.Liquidation.Outcomes.{Outcome, liquidate-Outcome}

-- What JavaScript prints of a number that is not below 0 stands for no negative integer.
abbrev pub PrintsNatural : (E : Env) → (Text → Option ℤ) → Type 0
PrintsNatural E value =
    (x : E.num.Value)
    → natural_or_none (value (E.num.to_string (E.num.max (E.num.literal 0 0) x))) ≡ true

module _ (E : Env) (value : Text → Option ℤ) where
  -- No debt and no collateral is negative.
  pub record NaturalPair (db : Db E) : Type 0 where
    pub debts : NaturalDebts E value db
    pub collaterals : NaturalCollaterals E value db

module _ (E : Env) (value : Text → Option ℤ) {back : BorrowPosition → BorrowPosition}
    {back' : CollateralPosition → CollateralPosition} (borrow_laws : BorrowLaws E value back)
    (collateral_laws : CollateralLaws E value back') (prints : PrintsNatural E value) where
  module _ (now : ℕ) (liquidator borrower : User) (debt_asset collateral_asset : Asset)
      (debt : BorrowPosition) (collateral : CollateralPosition) (db : Db E) where
    -- The debt and the collateral after the writes that the database took.
    debt-Natural :
        (u a : Text)
        → borrow_of E u a db ≡ some debt
        → NaturalDebts E value db
        → {r : BorrowPosition} {t : E.borrows.Rows}
        → E.borrows.save (paid E debt debt_asset) db.borrows ≡ some (r, t)
        → Natural (borrow_positions E value) t
    debt-Natural u a present natural written =
        save_value-Natural (borrow_positions E value) borrow_laws (paid E debt debt_asset)
          db.borrows
          (Fits-found (borrow_positions E value) borrow_laws u a (paid E debt debt_asset) db.borrows
            present refl refl refl)
          (unfold debt_after in prints _) natural written

    collateral-Natural :
        (u a : Text)
        → collateral_of E u a db ≡ some collateral
        → NaturalCollaterals E value db
        → {r : CollateralPosition} {t : E.collaterals.Rows}
        → E.collaterals.save (reduced E debt debt_asset collateral collateral_asset) db.collaterals
          ≡ some (r, t)
        → Natural (collateral_positions E value) t
    collateral-Natural u a present natural written =
        let q = reduced E debt debt_asset collateral collateral_asset in
        save_value-Natural (collateral_positions E value) collateral_laws q db.collaterals
          (Fits-found (collateral_positions E value) collateral_laws u a q db.collaterals present
            refl refl refl)
          (unfold collateral_after in prints _) natural written

    -- The two tables after the writes, refused ones included.
    settled_tables :
        let db' =
          (settle E now liquidator borrower debt_asset collateral_asset debt collateral db).1 in
        ((db'.borrows ≡ db.borrows) × (db'.collaterals ≡ db.collaterals))
        ⊎ ((r : BorrowPosition) × (E.borrows.save (paid E debt debt_asset) db.borrows
              ≡ some (r, db'.borrows))
            × (db'.collaterals ≡ db.collaterals))
        ⊎ ((r : BorrowPosition) × (q : CollateralPosition) × (E.borrows.save
                (paid E debt debt_asset)
                db.borrows
              ≡ some (r, db'.borrows))
            × (E.collaterals.save
                  (reduced E debt debt_asset collateral collateral_asset)
                  db.collaterals
                ≡ some (q, db'.collaterals)))
    unfolding settle
    settled_tables = elim (Option-cases (E.borrows.save (paid E debt debt_asset) db.borrows)) [
      | inl refused ↦ inl (ground arith, ground arith)
      | inr ((r, t), first) ↦
          elim (Option-cases (
            E.collaterals.save (reduced E debt debt_asset collateral collateral_asset)
              db.collaterals)) [
                | inl refused ↦ inr (inl (r, ground arith, ground arith))
                | inr ((q, s), second) ↦ inr (inr (r, q, ground arith, ground arith))
              ]
    ]

    settle-NaturalPair :
        (u a b : Text)
        → borrow_of E u a db ≡ some debt
        → collateral_of E u b db ≡ some collateral
        → NaturalPair E value db
        → NaturalPair E value
            (settle E now liquidator borrower debt_asset collateral_asset debt collateral db).1
    settle-NaturalPair u a b present held v = elim settled_tables [
      | inl (same, same') ↦ record { debts = rw same v.debts; collaterals = rw same' v.collaterals }
      | inr (inl (r, first, same)) ↦ record {
        debts = debt-Natural u a present v.debts first;
        collaterals = rw same v.collaterals;
      }
      | inr (inr (r, q, first, second)) ↦ record {
        debts = debt-Natural u a present v.debts first;
        collaterals = collateral-Natural u b held v.collaterals second;
      }
    ]

  outcome-NaturalPair :
      (now : ℕ) (id debt_code collateral_code : Text) (db : Db E)
      (o : Result LiquidationEvent × Db E)
      → Outcome E now id debt_code collateral_code db o
      → NaturalPair E value db
      → NaturalPair E value o.1
  outcome-NaturalPair now id debt_code collateral_code db o (inl (e, threw, same, same')) v =
      record { debts = rw same v.debts; collaterals = rw same' v.collaterals }
  outcome-NaturalPair now id debt_code collateral_code db o (inr (t, f, e)) v = rw e (
      settle-NaturalPair now f.liquidator f.borrower f.debt_asset f.collateral_asset f.debt
        f.collateral (record db { users = t }) id f.debt_asset.id f.collateral_asset.id f.debt_found
        f.collateral_found (record { debts = v.debts; collaterals = v.collaterals }))

  -- A liquidation leaves no debt and no collateral negative, whether it returns or throws, also where
  -- the database takes the first write only.
  pub liquidate-NaturalPair :
      (now : ℕ) (key id debt_code collateral_code : Text) (db : Db E)
      → NaturalPair E value db
      → NaturalPair E value (liquidate E now key id debt_code collateral_code db).1
  liquidate-NaturalPair now key id debt_code collateral_code db v =
      outcome-NaturalPair now id debt_code collateral_code db _
        (liquidate-Outcome E now key id debt_code collateral_code db) v

  visit_cover-NaturalPair :
      (now : ℕ) (position : AtRisk E.num) (cover : Option Cover) (db : Db E)
      → NaturalPair E value db
      → NaturalPair E value (visit_cover E now position cover db).1
  visit_cover-NaturalPair now position none db v = v
  visit_cover-NaturalPair now position (some cover) db v =
      rw (announced-db E now position cover _) (
        liquidate-NaturalPair now _ position.user_id cover.debt_asset_code
          cover.collateral_asset_code db v)

  visit_all-NaturalPair :
      (now : ℕ) (positions : List (AtRisk E.num)) (db : Db E)
      → NaturalPair E value db
      → NaturalPair E value (visit_all E now positions db).1
  unfolding visit_all visit
  visit_all-NaturalPair now [] db v = v
  visit_all-NaturalPair now (position ∷ rest) db v =
      let db' = (visit E now position db).1 in
      visit_all-NaturalPair now rest db' (
        visit_cover-NaturalPair now position (calculate_optimal_debt_cover E position.user_id db) db
          v)

  -- So does a scan of the bot, with all its liquidations.
  pub scan_and_liquidate-NaturalPair :
      (now : ℕ) (db : Db E)
      → NaturalPair E value db
      → NaturalPair E value (scan_and_liquidate E now db).1
  unfolding scan_and_liquidate
  scan_and_liquidate-NaturalPair now db v =
      visit_all-NaturalPair now (get_at_risk_positions E db) db v
