-- ===== src/Http/Controllers/Solvency.antt =====
-- What keeps the balances of the three tables of positions from being negative.
use soro_lend.Prelude.{◌≡◌, refl, arith, Bool, true, false, Option, none, some}
use soro_lend.Prelude.Int.{ℤ}
use soro_lend.Text.{Text}
use soro_lend.Text.Decimal.{bigint}
use soro_lend.Schema.{SupplyPosition, BorrowPosition, CollateralPosition}
use soro_lend.Store.{Env, Db}
use soro_lend.Store.Natural.{is_natural}
use soro_lend.Auth.{Redis, Settings}
use soro_lend.Lending
use soro_lend.Lending.Failures.{supply-KeepsOthers, withdraw-KeepsOthers}
use soro_lend.Lending.Ledger.{SupplyLaws}
use soro_lend.Lending.Solvency.{NaturalSupplies, supply-Natural, withdraw-Natural}
use soro_lend.Borrowing
use soro_lend.Borrowing.Debts.{BorrowLaws}
use soro_lend.Borrowing.Solvency.{NaturalDebts, borrow-Natural, repay-Natural}
use soro_lend.Collateral
use soro_lend.Collateral.Balances.{CollateralLaws}
use soro_lend.Collateral.Solvency.{NaturalCollaterals, deposit-Natural}
use soro_lend.Collateral.Solvency
use soro_lend.Http.Controllers.{
  Request, supply_position, borrow_position, collateral_position, lending, borrowing, collateral,
  governance, analytics, auth, health, ready, LendingRequest, BorrowingRequest, CollateralRequest,
  Outside, serve, serve_lending, serve_borrowing, serve_collateral,
}
use soro_lend.Http.Controllers.Reads.{lending_keeps, borrowing_keeps, analytics_keeps}
use soro_lend.Http.Controllers.Frame.{KeepsPositions, reply-db}
use soro_lend.Http.Controllers.Ballots.{governance-KeepsBoth}

-- An amount that `BigInt` reads as a number that is not negative.
abbrev pub is_good_number : Option ℤ → Bool
is_good_number none = false
is_good_number (some x) = is_natural x

-- A request has such an amount, if it is to add it to a balance.
abbrev pub is_good : Request → Bool
is_good (lending (LendingRequest.supply dto)) = is_good_number (bigint dto.amount)
is_good (borrowing (BorrowingRequest.borrow dto)) = is_good_number (bigint dto.amount)
is_good (collateral (CollateralRequest.deposit dto)) = is_good_number (bigint dto.amount)
is_good _ = true

pub good_parts :
    (o : Option ℤ) → is_good_number o ≡ true → (x : ℤ) × (o ≡ some x) × (is_natural x ≡ true)
good_parts none h = cc
good_parts (some x) h = (x, refl, h)

module _ (E : Env) (value : Text → Option ℤ) where
  -- No supply, debt or collateral stands for a negative number.
  pub record Solvent (db : Db E) : Type 0 where
    pub supplies : NaturalSupplies E value db
    pub debts : NaturalDebts E value db
    pub collaterals : NaturalCollaterals E value db

module _ (E : Env) where
  borrow_keeps :
      (key code amount : Text) (db : Db E)
      → let db' = (Borrowing.borrow E key code amount db).1 in
        (db'.supplies ≡ db.supplies) × (db'.collaterals ≡ db.collaterals)
  unfolding Borrowing.borrow
  borrow_keeps key code amount db = ground arith

  repay_keeps :
      (key code amount : Text) (db : Db E)
      → let db' = (Borrowing.repay E key code amount db).1 in
        (db'.supplies ≡ db.supplies) × (db'.collaterals ≡ db.collaterals)
  unfolding Borrowing.repay
  repay_keeps key code amount db = ground arith

  deposit_keeps :
      (key code amount : Text) (db : Db E)
      → let db' = (Collateral.deposit E key code amount db).1 in
        (db'.supplies ≡ db.supplies) × (db'.borrows ≡ db.borrows)
  unfolding Collateral.deposit
  deposit_keeps key code amount db = ground arith

  withdraw_collateral_keeps :
      (key code amount : Text) (db : Db E)
      → let db' = (Collateral.withdraw E key code amount db).1 in
        (db'.supplies ≡ db.supplies) × (db'.borrows ≡ db.borrows)
  unfolding Collateral.withdraw
  withdraw_collateral_keeps key code amount db = ground arith

module _ (E : Env) (value : Text → Option ℤ) {back₁ : SupplyPosition → SupplyPosition}
    {back₂ : BorrowPosition → BorrowPosition} {back₃ : CollateralPosition → CollateralPosition}
    (supply_laws : SupplyLaws E value back₁) (borrow_laws : BorrowLaws E value back₂)
    (collateral_laws : CollateralLaws E value back₃) where
  pub kept-Solvent :
      (db db' : Db E) → KeepsPositions E db db' → Solvent E value db → Solvent E value db'
  kept-Solvent db db' (s, b, c) v = record {
    supplies = rw s v.supplies;
    debts = rw b v.debts;
    collaterals = rw c v.collaterals;
  }

  lending-Solvent :
      (r : LendingRequest) (db : Db E)
      → is_good (lending r) ≡ true
      → Solvent E value db
      → Solvent E value (serve_lending E r db).1
  unfolding serve_lending
  lending-Solvent (LendingRequest.supply dto) db h v =
      let (_, b, c, _) = supply-KeepsOthers E dto.public_key dto.asset_code dto.amount db in
      let (x, reads, good) = good_parts (bigint dto.amount) h in
      rw (reply-db E supply_position (Lending.supply E dto.public_key dto.asset_code dto.amount db))
        (record {
          supplies =
              supply-Natural E value back₁ supply_laws dto.public_key dto.asset_code dto.amount db
                reads good v.supplies;
          debts = rw b v.debts;
          collaterals = rw c v.collaterals;
        })
  lending-Solvent (LendingRequest.withdraw dto) db h v =
      let (_, b, c, _) = withdraw-KeepsOthers E dto.public_key dto.asset_code dto.amount db in
      rw
        (reply-db E supply_position
          (Lending.withdraw E dto.public_key dto.asset_code dto.amount db))
        (record {
          supplies =
              withdraw-Natural E value back₁ supply_laws dto.public_key dto.asset_code dto.amount db
                v.supplies;
          debts = rw b v.debts;
          collaterals = rw c v.collaterals;
        })
  lending-Solvent LendingRequest.get_markets db h v = v
  lending-Solvent (LendingRequest.get_market code) db h v =
      rw (lending_keeps E (LendingRequest.get_market code) db refl) v
  lending-Solvent (LendingRequest.get_positions address) db h v = v

  borrowing-Solvent :
      (r : BorrowingRequest) (db : Db E)
      → is_good (borrowing r) ≡ true
      → Solvent E value db
      → Solvent E value (serve_borrowing E r db).1
  unfolding serve_borrowing
  borrowing-Solvent (BorrowingRequest.borrow dto) db h v =
      let (s, c) = borrow_keeps E dto.public_key dto.asset_code dto.amount db in
      let (x, reads, good) = good_parts (bigint dto.amount) h in
      rw
        (reply-db E borrow_position
          (Borrowing.borrow E dto.public_key dto.asset_code dto.amount db))
        (record {
          supplies = rw s v.supplies;
          debts =
              borrow-Natural E value back₂ borrow_laws dto.public_key dto.asset_code dto.amount db
                reads good v.debts;
          collaterals = rw c v.collaterals;
        })
  borrowing-Solvent (BorrowingRequest.repay dto) db h v =
      let (s, c) = repay_keeps E dto.public_key dto.asset_code dto.amount db in
      rw
        (reply-db E borrow_position (Borrowing.repay E dto.public_key dto.asset_code dto.amount db))
        (record {
          supplies = rw s v.supplies;
          debts =
              repay-Natural E value back₂ borrow_laws dto.public_key dto.asset_code dto.amount db
                v.debts;
          collaterals = rw c v.collaterals;
        })
  borrowing-Solvent (BorrowingRequest.get_positions address) db h v = v
  borrowing-Solvent (BorrowingRequest.get_health address) db h v =
      rw (borrowing_keeps E (BorrowingRequest.get_health address) db refl) v

  collateral-Solvent :
      (r : CollateralRequest) (db : Db E)
      → is_good (collateral r) ≡ true
      → Solvent E value db
      → Solvent E value (serve_collateral E r db).1
  unfolding serve_collateral
  collateral-Solvent (CollateralRequest.deposit dto) db h v =
      let (s, b) = deposit_keeps E dto.public_key dto.asset_code dto.amount db in
      let (x, reads, good) = good_parts (bigint dto.amount) h in
      rw
        (reply-db E collateral_position
          (Collateral.deposit E dto.public_key dto.asset_code dto.amount db))
        (record {
          supplies = rw s v.supplies;
          debts = rw b v.debts;
          collaterals =
              deposit-Natural E value back₃ collateral_laws dto.public_key dto.asset_code dto.amount
                db reads good v.collaterals;
        })
  collateral-Solvent (CollateralRequest.withdraw dto) db h v =
      let (s, b) = withdraw_collateral_keeps E dto.public_key dto.asset_code dto.amount db in
      rw
        (reply-db E collateral_position
          (Collateral.withdraw E dto.public_key dto.asset_code dto.amount db))
        (record {
          supplies = rw s v.supplies;
          debts = rw b v.debts;
          collaterals =
              Solvency.withdraw-Natural E value back₃ collateral_laws dto.public_key dto.asset_code
                dto.amount db v.collaterals;
        })
  collateral-Solvent (CollateralRequest.get_portfolio address) db h v = v
  collateral-Solvent (CollateralRequest.get_max_borrow address) db h v = v

  pub serve-Solvent :
      (R : Redis) (s : Settings) (sign : Text → Text) (o : Outside) (r : Request) (db : Db E)
      (cache : R.Cache)
      → is_good r ≡ true
      → Solvent E value db
      → Solvent E value (serve R s sign E o r (db, cache)).1.0
  unfolding serve
  serve-Solvent R s sign o (lending r) db cache h v = lending-Solvent r db h v
  serve-Solvent R s sign o (borrowing r) db cache h v = borrowing-Solvent r db h v
  serve-Solvent R s sign o (collateral r) db cache h v = collateral-Solvent r db h v
  serve-Solvent R s sign o (governance r) db cache h v =
      kept-Solvent db _ (governance-KeepsBoth E o.now r db).1 v
  serve-Solvent R s sign o (analytics r) db cache h v = rw (analytics_keeps E o r db) v
  serve-Solvent R s sign o (auth r) db cache h v = v
  serve-Solvent R s sign o health db cache h v = v
  serve-Solvent R s sign o ready db cache h v = v
