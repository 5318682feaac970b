-- ===== src/Frontend/Actions.antt =====
-- The actions of the store (frontend/src/app/store, the `*.actions.ts` files).
use soro_lend.Prelude.{Option, Bool, List}
use soro_lend.Text.{Text}
use soro_lend.Runtime.{Number}
use soro_lend.Frontend.Models.{Market, Position, CollateralPortfolio, Proposal, ProtocolStats}

pub data Kind : Type 0 where
  supply withdraw borrow repay deposit_collateral withdraw_collateral : Kind

-- The payload of `submitTransaction`.
pub record Transaction : Type 0 where
  pub kind : Kind
  pub address : Text
  pub asset_code : Text
  pub amount : Text

-- The payload of `castVote`.
pub record Ballot : Type 0 where
  pub proposal_id : Text
  pub voter : Text
  pub support : Bool

-- The payload of `loadPortfolioSuccess`.
pub record Portfolio (N : Number) : Type 0 where
  pub supply : List (Position N)
  pub borrow : List (Position N)
  pub collateral : CollateralPortfolio N
  pub health_factor : N.Value
  pub max_borrow_usd : N.Value
  pub stats : Option (ProtocolStats N)

-- `Record<string, number>`; the first entry of a key counts.
abbrev pub Prices : Number → Type 0
Prices N = List (Text × N.Value)

pub data Action (N : Number) : Type 0 where
  connect_wallet : Action N
  connect_wallet_success : Text → Action N
  connect_wallet_failure : Text → Action N
  login : Text → Action N
  -- the address and the token
  login_success : Text → Text → Action N
  login_failure : Text → Action N
  logout : Action N
  load_markets : Action N
  load_markets_success : List (Market N) → Action N
  load_markets_failure : Text → Action N
  load_portfolio : Text → Action N
  load_portfolio_success : Portfolio N → Action N
  load_portfolio_failure : Text → Action N
  submit_transaction : Transaction → Action N
  submit_transaction_success : Text → Action N
  submit_transaction_failure : Text → Action N
  price_stream_updated : Prices N → Action N
  load_proposals : Action N
  load_proposals_success : List Proposal → Action N
  load_proposals_failure : Text → Action N
  cast_vote : Ballot → Action N
  cast_vote_success : Proposal → Action N
  cast_vote_failure : Text → Action N
  load_voting_power : Text → Action N
  load_voting_power_success : Text → Action N
