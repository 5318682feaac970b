-- ===== src/Liquidation/Outcomes.antt =====
-- How a liquidation ends: it wrote nothing to the debts and the collaterals, or was `settle`.
use soro_lend.Prelude.{
  ◌≡◌, refl, ℕ, some, inl, inr, Option-cases, Bool-cases, Bool, false, arith, ◌||◌, ◌⊎◌,
}
use soro_lend.Accounts.{find_or_create_user, find_or_create_user-cases}
use soro_lend.Valuation.{price_of}
use soro_lend.Text.{Text, codes}
use soro_lend.Runtime.{Result, Error, err, rejected, plain}
use soro_lend.Schema.{User, Asset, BorrowPosition, CollateralPosition, LiquidationEvent}
use soro_lend.Store.{
  Env, Db, Action, ◌>>=◌, ◌>>◌, gets, or_raise, raise_if, bind_step, bind_stop, borrow_of,
  collateral_of, active_asset, user_by_id,
}
use soro_lend.Liquidation.{liquidate, settle}

-- What a liquidation finds before it writes, in a database that differs from `db` in the users `t` at
-- most: the borrower, two active assets with prices other than 0, a debt and a collateral.
pub record Found (E : Env) (id debt_code collateral_code : Text) (db : Db E) (t : E.users.Rows)
    : Type 0 where
  pub liquidator : User
  pub borrower : User
  pub debt_asset : Asset
  pub collateral_asset : Asset
  pub debt : BorrowPosition
  pub collateral : CollateralPosition
  pub borrower_found : user_by_id E id (record db { users = t }) ≡ some borrower
  pub debt_asset_found : active_asset E debt_code db ≡ some debt_asset
  pub collateral_asset_found : active_asset E collateral_code db ≡ some collateral_asset
  pub debt_found : borrow_of E id debt_asset.id db ≡ some debt
  pub collateral_found : collateral_of E id collateral_asset.id db ≡ some collateral
  pub debt_priced : E.num.eq (price_of E.num debt_asset) (E.num.literal 0 0) ≡ false
  pub collateral_priced : E.num.eq (price_of E.num collateral_asset) (E.num.literal 0 0) ≡ false

both_false : (a b : Bool) → (a || b) ≡ false → (a ≡ false) × (b ≡ false)
both_false a b h = ground arith

module _ (E : Env) where
  -- A call threw and wrote nothing to the two tables, or was `settle` on what it found.
  abbrev pub Outcome : ℕ → Text → Text → Text → Db E → Result LiquidationEvent × Db E → Type 0
  Outcome now id debt_code collateral_code db o =
      ((e : Error) × (o.0 ≡ err e)
        × (o.1.borrows ≡ db.borrows)
        × (o.1.collaterals ≡ db.collaterals))
      ⊎ ((t : E.users.Rows) × (f : Found E id debt_code collateral_code db t) × (o
            ≡ settle E now f.liquidator f.borrower f.debt_asset f.collateral_asset f.debt
                f.collateral (record db { users = t })))

  -- The rest of `liquidate` once the liquidator is there.
  abbrev after_liquidator : ℕ → Text → Text → Text → User → Action E LiquidationEvent
  after_liquidator now id debt_code collateral_code liquidator = do
    borrower? ← gets (user_by_id E id)
    borrower ← or_raise (plain (codes "Borrower not found")) borrower?
    debt_asset? ← gets (active_asset E debt_code)
    collateral_asset? ← gets (active_asset E collateral_code)
    debt_asset ← or_raise (plain (codes "Asset not found")) debt_asset?
    collateral_asset ← or_raise (plain (codes "Asset not found")) collateral_asset?
    debt? ← gets (borrow_of E id debt_asset.id)
    debt ← or_raise (plain (codes "Debt position not found")) debt?
    collateral? ← gets (collateral_of E id collateral_asset.id)
    collateral ← or_raise (plain (codes "Collateral position not found")) collateral?
    raise_if
        (E.num.eq (price_of E.num debt_asset) (E.num.literal 0 0)
          || E.num.eq (price_of E.num collateral_asset) (E.num.literal 0 0))
        (plain (codes "Oracle price not available"))
    settle E now liquidator borrower debt_asset collateral_asset debt collateral

  after_liquidator-Outcome :
      (now : ℕ) (id debt_code collateral_code : Text) (liquidator : User) (db : Db E)
      (t : E.users.Rows)
      → Outcome now id debt_code collateral_code db
          (after_liquidator now id debt_code collateral_code liquidator (record db { users = t }))
  after_liquidator-Outcome now id debt_code collateral_code liquidator db t =
      let db₁ : Db E = record db { users = t } in
      elim (Option-cases (user_by_id E id db₁)) [
        | inl absent ↦ rw absent (inl (plain (codes "Borrower not found"), refl, refl, refl))
        | inr (borrower, p) ↦ elim (Option-cases (active_asset E debt_code db)) [
          | inl absent ↦ rw (p, absent) (inl (plain (codes "Asset not found"), refl, refl, refl))
          | inr (debt_asset, q) ↦ elim (Option-cases (active_asset E collateral_code db)) [
            | inl absent ↦
                rw (p, q, absent) (inl (plain (codes "Asset not found"), refl, refl, refl))
            | inr (collateral_asset, r) ↦ elim (Option-cases (borrow_of E id debt_asset.id db)) [
              | inl absent ↦
                  rw (p, q, r, absent)
                    (inl (plain (codes "Debt position not found"), refl, refl, refl))
              | inr (debt, x) ↦ elim (Option-cases (collateral_of E id collateral_asset.id db)) [
                | inl absent ↦
                    rw (p, q, r, x, absent)
                      (inl (plain (codes "Collateral position not found"), refl, refl, refl))
                | inr (collateral, y) ↦
                    elim (Bool-cases (
                      E.num.eq (price_of E.num debt_asset) (E.num.literal 0 0)
                      || E.num.eq (price_of E.num collateral_asset) (E.num.literal 0 0))) [
                        | inl unpriced ↦
                            rw (p, q, r, x, y, unpriced)
                              (inl (plain (codes "Oracle price not available"), refl, refl, refl))
                        | inr priced ↦
                            let (u, v) =
                              both_false (E.num.eq (price_of E.num debt_asset) (E.num.literal 0 0))
                                (E.num.eq (price_of E.num collateral_asset) (E.num.literal 0 0))
                                priced in
                            rw (p, q, r, x, y, priced)
                              (inr (
                                t,
                                record {
                                  liquidator = liquidator;
                                  borrower = borrower;
                                  debt_asset = debt_asset;
                                  collateral_asset = collateral_asset;
                                  debt = debt;
                                  collateral = collateral;
                                  borrower_found = p;
                                  debt_asset_found = q;
                                  collateral_asset_found = r;
                                  debt_found = x;
                                  collateral_found = y;
                                  debt_priced = u;
                                  collateral_priced = v;
                                },
                                refl,
                              ))
                      ]
              ]
            ]
          ]
        ]
      ]

  pub liquidate-Outcome :
      (now : ℕ) (key id debt_code collateral_code : Text) (db : Db E)
      → Outcome now id debt_code collateral_code db
          (liquidate E now key id debt_code collateral_code db)
  unfolding liquidate
  liquidate-Outcome now key id debt_code collateral_code db =
      elim (find_or_create_user-cases E key db) [
        | inl refused ↦
            rw (bind_stop (find_or_create_user E key) next db refused)
              (inl (rejected, refl, refl, refl))
        | inr (u, t, there) ↦
            rw (bind_step (find_or_create_user E key) next db there)
              (after_liquidator-Outcome now id debt_code collateral_code u db t)
      ]
    where
      next : User → Action E LiquidationEvent
      next = after_liquidator now id debt_code collateral_code
