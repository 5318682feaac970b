-- ===== src/Indexer.antt =====
-- EventProcessorService and StellarIndexerService (backend/src/modules/indexer).
pub mod Poll
pub mod Replay
pub mod Frame
pub mod Solvency
use soro_lend.Prelude.{ℕ, Option, none, some, List, [], ◌∷◌, ◌++◌, if◌then◌else◌}
use soro_lend.Prelude.Int.{ℤ, pos, ◌+ℤ◌, ◌-ℤ◌, ltb_ℤ}
use soro_lend.Text.{Text, codes}
use soro_lend.Text.Decimal.{to_text}
use soro_lend.Runtime.{Result, ok, err, plain}
use soro_lend.Schema.{User, Asset, SupplyPosition, BorrowPosition}
use soro_lend.Store.{
  Env, Db, Action, ◌>>=◌, ◌>>◌, pure, gets, or_raise, to_bigint, active_asset, save_supply,
  save_borrow, supply_of, borrow_of,
}
use soro_lend.Accounts.{find_or_create_user}

-- `other` is a type that the `switch` does not know.
pub data EventType : Type 0 where
  supply withdraw borrow repay liquidation other : EventType

pub record IndexedEvent : Type 0 where
  pub type : EventType
  pub user : Text
  pub asset : Text
  pub amount : Text
  pub tx_hash : Text
  pub block_number : ℕ
  pub timestamp : ℕ

-- What a handler reports.
pub record Report : Type 0 where
  pub type : EventType
  pub user : Text
  pub asset : Text
  pub amount : Text

abbrev pub report_of : EventType → IndexedEvent → Report
report_of type event = record {
  type = type;
  user = event.user;
  asset = event.asset;
  amount = event.amount;
}

-- `current >= x ? (current - x).toString() : '0'`
unfoldable pub reduced : ℤ → ℤ → Text
reduced current x = if ltb_ℤ current x then codes "0" else to_text (current -ℤ x)

module _ (E : Env) where
  unfoldable pub find_indexed_asset : Text → Action E Asset
  find_indexed_asset code = do
    asset ← gets (active_asset E code)
    or_raise (plain (codes "Asset not found: " ++ code)) asset

  -- The `if (position)` of `handleSupplyEvent`.
  unfoldable pub supply_indexed :
      User → Asset → Text → Option SupplyPosition → Action E SupplyPosition
  supply_indexed user asset amount (some p) = do
    current ← to_bigint p.amount
    added ← to_bigint amount
    pure (record p { amount = to_text (current +ℤ added) })
  supply_indexed user asset amount none = pure (record {
    id = [];
    user_id = user.id;
    asset_id = asset.id;
    amount = amount;
    shares = amount;
    supply_index = codes "1000000000000000000";
  })

  unfoldable pub handle_supply_event : IndexedEvent → Action E Report
  unfolding supply_indexed find_indexed_asset find_or_create_user
  handle_supply_event event = do
    user ← find_or_create_user E event.user
    asset ← find_indexed_asset event.asset
    found ← gets (supply_of E user.id asset.id)
    position ← supply_indexed user asset event.amount found
    save_supply E position
    pure (report_of supply event)

  -- The `if (position)` of `handleWithdrawEvent`.
  unfoldable pub drawn : Text → Option SupplyPosition → Action E (Unit {0})
  drawn amount none = pure tt
  drawn amount (some p) = do
    current ← to_bigint p.amount
    withdrawal ← to_bigint amount
    save_supply E (record p { amount = reduced current withdrawal })
    pure tt

  unfoldable pub handle_withdraw_event : IndexedEvent → Action E Report
  unfolding drawn find_indexed_asset find_or_create_user
  handle_withdraw_event event = do
    user ← find_or_create_user E event.user
    asset ← find_indexed_asset event.asset
    found ← gets (supply_of E user.id asset.id)
    drawn event.amount found
    pure (report_of withdraw event)

  -- The `if (position)` of `handleBorrowEvent`.
  unfoldable pub borrow_indexed :
      User → Asset → Text → Option BorrowPosition → Action E BorrowPosition
  borrow_indexed user asset amount (some p) = do
    current ← to_bigint p.amount
    added ← to_bigint amount
    pure (record p { amount = to_text (current +ℤ added) })
  borrow_indexed user asset amount none = pure (record {
    id = [];
    user_id = user.id;
    asset_id = asset.id;
    amount = amount;
    interest_index = codes "1000000000000000000";
    accrued_interest = codes "0";
  })

  unfoldable pub handle_borrow_event : IndexedEvent → Action E Report
  unfolding borrow_indexed find_indexed_asset find_or_create_user
  handle_borrow_event event = do
    user ← find_or_create_user E event.user
    asset ← find_indexed_asset event.asset
    found ← gets (borrow_of E user.id asset.id)
    position ← borrow_indexed user asset event.amount found
    save_borrow E position
    pure (report_of borrow event)

  -- The `if (position)` of `handleRepayEvent`.
  unfoldable pub repaid : Text → Option BorrowPosition → Action E (Unit {0})
  repaid amount none = pure tt
  repaid amount (some p) = do
    current ← to_bigint p.amount
    repayment ← to_bigint amount
    save_borrow E (record p { amount = reduced current repayment })
    pure tt

  unfoldable pub handle_repay_event : IndexedEvent → Action E Report
  unfolding repaid find_indexed_asset find_or_create_user
  handle_repay_event event = do
    user ← find_or_create_user E event.user
    asset ← find_indexed_asset event.asset
    found ← gets (borrow_of E user.id asset.id)
    repaid event.amount found
    pure (report_of repay event)

  unfoldable pub handle_liquidation_event : IndexedEvent → Action E Report
  handle_liquidation_event event = pure (report_of liquidation event)

  -- The `switch` on the type; the default reports nothing.
  unfoldable pub dispatch : EventType → IndexedEvent → Action E (Option Report)
  dispatch supply event = do r ← handle_supply_event event; pure (some r)
  dispatch withdraw event = do r ← handle_withdraw_event event; pure (some r)
  dispatch borrow event = do r ← handle_borrow_event event; pure (some r)
  dispatch repay event = do r ← handle_repay_event event; pure (some r)
  dispatch liquidation event = do r ← handle_liquidation_event event; pure (some r)
  dispatch other event = pure none

  unfoldable pub process_event : IndexedEvent → Action E (Option Report)
  unfolding dispatch
  process_event event = dispatch event.type event

  -- `try { … } catch`: what one event adds to the list.
  abbrev pub kept : Result (Option Report) → List Report → List Report
  kept (ok (some r)) rest = r ∷ rest
  kept (ok none) rest = rest
  kept (err e) rest = rest

  unfoldable pub process_events : List IndexedEvent → Db E → List Report × Db E
  process_events [] db = ([], db)
  process_events (event ∷ events) db =
      let (r, db') = process_event event db in
      let (rest, db'') = process_events events db' in (kept r rest, db'')
