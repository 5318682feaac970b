-- ===== src/Borrowing.antt =====
-- BorrowingService (backend/src/modules/borrowing/borrowing.service.ts).
pub mod Solvency
pub mod Debts
pub mod Guard
use soro_lend.Prelude.{
  ℕ, ◌/◌, ◌^◌, suc, Bool, true, false, Option, none, some, List, [], ◌∷◌, map, ◌++◌, not,
  if◌then◌else◌,
}
use soro_lend.Prelude.Int.{ℤ, pos, negsuc, ◌+ℤ◌, ◌-ℤ◌, ◌*ℤ◌, ltb_ℤ}
use soro_lend.Text.{Text, codes, truthy, remove_first, pad_end}
use soro_lend.Text.Decimal.{bigint, to_text, negated}
use soro_lend.Runtime.{not_found, bad_request, syntax_error, ok}
use soro_lend.Schema.{User, Asset, BorrowPosition, CollateralPosition}
use soro_lend.Store.{
  Env, Db, Action, ◌>>=◌, ◌>>◌, pure, gets, or_raise, raise_if, to_bigint, save_borrow, borrow_of,
  user_by_key, borrows_of, collaterals_of,
}
use soro_lend.Accounts.{find_asset_by_code, find_or_create_user}
use soro_lend.Valuation.{collateral_value, debt_value}

pub record BorrowView : Type 0 where
  pub id : Text
  pub asset_code : Text
  pub amount : Text
  pub interest_index : Text
  pub accrued_interest : Text
  pub asset_decimals : ℕ

pub record Health : Type 0 where
  pub health_factor : Text
  pub total_collateral_usd : Text
  pub total_borrow_usd : Text

abbrev borrow_view : BorrowPosition × Asset → BorrowView
borrow_view (p, a) = record {
  id = p.id;
  asset_code = a.code;
  amount = p.amount;
  interest_index = p.interest_index;
  accrued_interest = p.accrued_interest;
  asset_decimals = a.decimals;
}

-- The division of BigInts, which rounds towards zero, by a positive number.
abbrev pub div_ℤ : ℤ → ℕ → ℤ
div_ℤ (pos m) n = pos (m / n)
div_ℤ (negsuc m) n = negated (suc m / n)

-- `BigInt(price.replace('.', '').padEnd(18, '0'))`, or 0 where there is no price
unfoldable pub scaled_price : Option Text → Option ℤ
scaled_price price = elim (truthy price) [
  | none ↦ some (pos 0)
  | some t ↦ bigint (pad_end 18 b'0' (remove_first b'.' t))
]

module _ (E : Env) where
  -- `total += (amount * price) / BigInt(10) ** BigInt(decimals)`, for the amounts of positions
  unfoldable pub usd_total : ℤ → List (Text × Asset) → Action E ℤ
  usd_total total [] = pure total
  usd_total total ((text, a) ∷ rest) = do
    price ← or_raise syntax_error (scaled_price a.oracle_price)
    amount ← to_bigint text
    usd_total (total +ℤ div_ℤ (amount *ℤ price) (10 ^ a.decimals)) rest

  unfoldable pub validate_health_for_borrow : Text → Asset → Text → Db E → Bool
  validate_health_for_borrow user_id _ _ db =
      let collateral = collateral_value E.num (collaterals_of E user_id db) in
      let debt = debt_value E.num (borrows_of E user_id db) in
      if E.num.eq collateral (E.num.literal 0 0)
      then false
      else E.num.lt (E.num.literal 1 0) (E.num.div collateral debt)

  -- The `if (position)` of `borrow`.
  unfoldable pub borrowed : User → Asset → Text → Option BorrowPosition → Action E BorrowPosition
  borrowed user asset amount (some p) = do
    current ← to_bigint p.amount
    added ← to_bigint amount
    pure (record p { amount = to_text (current +ℤ added) })
  borrowed user asset amount none = pure (record {
    id = [];
    user_id = user.id;
    asset_id = asset.id;
    amount = amount;
    interest_index = codes "1000000000000000000";
    accrued_interest = codes "0";
  })

  unfoldable pub borrow : Text → Text → Text → Action E BorrowPosition
  unfolding borrowed find_asset_by_code find_or_create_user
  borrow public_key asset_code amount = do
    user ← find_or_create_user E public_key
    asset ← find_asset_by_code E asset_code
    health_ok ← gets (validate_health_for_borrow user.id asset amount)
    raise_if (not health_ok)
        (bad_request (codes "Borrow would put health factor below minimum threshold"))
    found ← gets (borrow_of E user.id asset.id)
    position ← borrowed user asset amount found
    save_borrow E position

  unfoldable pub repay : Text → Text → Text → Action E BorrowPosition
  unfolding find_asset_by_code find_or_create_user
  repay public_key asset_code amount = do
    user ← find_or_create_user E public_key
    asset ← find_asset_by_code E asset_code
    found ← gets (borrow_of E user.id asset.id)
    position ← or_raise (not_found (codes "Borrow position not found")) found
    current ← to_bigint position.amount
    repayment ← to_bigint amount
    raise_if (ltb_ℤ current repayment) (bad_request (codes "Repay amount exceeds outstanding debt"))
    save_borrow E (record position { amount = to_text (current -ℤ repayment) })

  abbrev positions_of : Option User → Db E → List BorrowView
  positions_of none db = []
  positions_of (some user) db = map borrow_view (borrows_of E user.id db)

  unfoldable pub get_positions : Text → Db E → List BorrowView
  get_positions address db = positions_of (user_by_key E address db) db

  abbrev pub health_of : Option User → Action E Health
  health_of none = pure (record {
    health_factor = codes "0";
    total_collateral_usd = codes "0";
    total_borrow_usd = codes "0";
  })
  health_of (some user) = do
    collaterals ← gets (collaterals_of E user.id)
    borrows ← gets (borrows_of E user.id)
    collateral ← usd_total (pos 0) (map (λ (p, a). (p.amount, a)) collaterals)
    debt ← usd_total (pos 0) (map (λ (p, a). (p.amount, a)) borrows)
    pure (record {
      health_factor =
          if ltb_ℤ (pos 0) debt
          then E.num.to_fixed 4 (E.num.div (E.num.of_ℤ collateral) (E.num.of_ℤ debt))
          else codes "999.9999";
      total_collateral_usd = to_text collateral;
      total_borrow_usd = to_text debt;
    })

  unfoldable pub get_health : Text → Action E Health
  unfolding usd_total scaled_price
  get_health address = do user ← gets (user_by_key E address); health_of user
