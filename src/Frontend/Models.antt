-- ===== src/Frontend/Models.antt =====
-- What the client holds of the protocol (frontend/src/app/core/models/protocol.models.ts).
use soro_lend.Prelude.{Option, Bool, List}
use soro_lend.Text.{Text}
use soro_lend.Runtime.{Number}
use soro_lend.Schema.{ProposalStatus}

pub record Market (N : Number) : Type 0 where
  pub id : Text
  pub code : Text
  pub decimals : N.Value
  pub oracle_price : Text
  pub ltv_ratio : Text
  pub liquidation_threshold : Text
  pub liquidation_penalty : Text
  pub reserve_factor : Text
  pub is_active : Bool
  pub supply_apy : Option N.Value
  pub borrow_apy : Option N.Value
  pub liquidity : Option Text

pub record Position (N : Number) : Type 0 where
  pub id : Option Text
  pub asset_code : Text
  pub amount : Text
  pub shares : Option Text
  pub supply_index : Option Text
  pub debt_index : Option Text
  pub asset_decimals : Option N.Value

pub record CollateralPortfolio (N : Number) : Type 0 where
  pub positions : List (Position N)
  pub total_value_usd : N.Value
  pub available_borrow_usd : N.Value
  pub health_factor : N.Value

pub record Proposal : Type 0 where
  pub id : Text
  pub title : Text
  pub description : Text
  pub status : ProposalStatus
  pub for_votes : Text
  pub against_votes : Text
  pub created_by : Option Text

pub record ProtocolStats (N : Number) : Type 0 where
  pub tvl_usd : N.Value
  pub total_borrows_usd : N.Value
  pub active_users : N.Value
  pub liquidation_volume_usd : N.Value
