-- ===== src/Schema.antt =====
-- The entities of backend/src/database/entities, a record for each table. A relation to one row is
-- the id of that row; lists of related rows are found by a query instead. The columns that only the
-- database reads and writes (`createdAt`, `updatedAt`) are left out. A row that `create` made has
-- the empty text for its id until it is saved.
use soro_lend.Prelude.{ℕ, Bool, Option, List}
use soro_lend.Text.{Text}

pub record User : Type 0 where
  pub id : Text
  pub public_key : Text
  pub nonce : Option Text
  pub nonce_expires_at : Option ℕ
  pub last_login_at : Option ℕ

pub record Asset : Type 0 where
  pub id : Text
  pub code : Text
  pub issuer : Option Text
  pub contract_id : Text
  pub decimals : ℕ
  pub oracle_price : Option Text
  pub oracle_updated_at : Option ℕ
  pub ltv_ratio : Option Text
  pub liquidation_threshold : Option Text
  pub liquidation_penalty : Option Text
  pub reserve_factor : Option Text
  pub is_active : Bool

pub record SupplyPosition : Type 0 where
  pub id : Text
  pub user_id : Text
  pub asset_id : Text
  pub amount : Text
  pub shares : Text
  pub supply_index : Text

pub record BorrowPosition : Type 0 where
  pub id : Text
  pub user_id : Text
  pub asset_id : Text
  pub amount : Text
  pub interest_index : Text
  pub accrued_interest : Text

pub record CollateralPosition : Type 0 where
  pub id : Text
  pub user_id : Text
  pub asset_id : Text
  pub amount : Text

pub record LiquidationEvent : Type 0 where
  pub id : Text
  pub liquidator_id : Text
  pub borrower_id : Text
  pub debt_asset_id : Text
  pub collateral_asset_id : Text
  pub debt_amount : Text
  pub collateral_seized : Text
  pub bonus_amount : Text
  pub tx_hash : Text
  pub block_number : Option ℕ

pub record MarketSnapshot : Type 0 where
  pub id : Text
  pub asset_id : Text
  pub total_supply : Text
  pub total_borrow : Text
  pub total_reserves : Text
  pub supply_index : Text
  pub borrow_index : Text
  pub borrow_rate : Text
  pub supply_rate : Text
  pub utilization_rate : Text
  pub snapshot_at : ℕ

pub record PriceFeed : Type 0 where
  pub id : Text
  pub asset_id : Text
  pub price : Text
  pub source : Text
  pub timestamp : ℕ

pub data ProposalStatus : Type 0 where
  pending active succeeded defeated executed : ProposalStatus

pub record Proposal : Type 0 where
  pub id : Text
  pub proposal_id : ℕ
  pub title : Text
  pub description : Text
  pub proposer : Text
  pub status : ProposalStatus
  pub for_votes : Text
  pub against_votes : Text
  pub quorum : Text
  pub voting_power_snapshot : Text
  pub targets : Option (List Text)
  pub values : Option (List Text)
  pub signatures : Option (List Text)
  pub calldatas : Option (List Text)
  pub start_block : Option ℕ
  pub end_block : Option ℕ
  pub executed_at : Option ℕ

pub data VoteType : Type 0 where
  for_it against abstain : VoteType

pub record Vote : Type 0 where
  pub id : Text
  pub proposal_id : Text
  pub voter_id : Text
  pub vote : VoteType
  pub voting_power : Text
  pub reason : Option Text
