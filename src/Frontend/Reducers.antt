-- ===== src/Frontend/Reducers.antt =====
-- The reducers of the store (frontend/src/app/store, the `*.reducer.ts` files), and the store that
-- `main.ts` combines them into. The browser's local storage holds an address and a token.
use soro_lend.Prelude.{Option, none, some, Bool, true, false, List, [], ◌++◌, map, if◌then◌else◌}
use soro_lend.Text.{Text, codes, text_eq, is_truthy}
use soro_lend.Runtime.{Number}
use soro_lend.Frontend.Models.{Market, Position, CollateralPortfolio, Proposal, ProtocolStats}
use soro_lend.Frontend.Actions.{
  Prices, Action, connect_wallet, connect_wallet_success, connect_wallet_failure, login,
  login_success, login_failure, logout, load_markets, load_markets_success, load_markets_failure,
  load_portfolio, load_portfolio_success, load_portfolio_failure, submit_transaction,
  submit_transaction_success, submit_transaction_failure, price_stream_updated, load_proposals,
  load_proposals_success, load_proposals_failure, cast_vote, cast_vote_success, cast_vote_failure,
  load_voting_power, load_voting_power_success,
}

-- The keys `sorolend.address` and `sorolend.jwt` of `localStorage`.
pub record Storage : Type 0 where
  pub address : Option Text
  pub jwt : Option Text

pub record AuthState : Type 0 where
  pub address : Option Text
  pub jwt : Option Text
  pub connected : Bool
  pub loading : Bool
  pub error : Option Text

pub record MarketsState (N : Number) : Type 0 where
  pub markets : List (Market N)
  pub loading : Bool
  pub error : Option Text

pub record PortfolioState (N : Number) : Type 0 where
  pub supply : List (Position N)
  pub borrow : List (Position N)
  pub collateral : CollateralPortfolio N
  pub health_factor : N.Value
  pub max_borrow_usd : N.Value
  pub stats : Option (ProtocolStats N)
  pub loading : Bool
  pub transaction_pending : Bool
  pub error : Option Text

pub record PricesState (N : Number) : Type 0 where
  pub prices : Prices N

pub record GovernanceState : Type 0 where
  pub proposals : List Proposal
  pub voting_power : Text
  pub loading : Bool
  pub error : Option Text

pub record State (N : Number) : Type 0 where
  pub auth : AuthState
  pub markets : MarketsState N
  pub portfolio : PortfolioState N
  pub prices : PricesState N
  pub governance : GovernanceState

-- `Boolean(text)`, of a nullable text
abbrev pub boolean : Option Text → Bool
boolean none = false
boolean (some t) = is_truthy t

abbrev pub initial_auth_state : Storage → AuthState
initial_auth_state s = record {
  address = s.address;
  jwt = s.jwt;
  connected = boolean s.address;
  loading = false;
  error = none;
}

abbrev pub initial_governance_state : GovernanceState
initial_governance_state = record {
  proposals = [];
  voting_power = codes "0";
  loading = false;
  error = none;
}

module _ (N : Number) where
  abbrev pub initial_markets_state : MarketsState N
  initial_markets_state = record { markets = []; loading = false; error = none }

  abbrev pub empty_collateral : CollateralPortfolio N
  empty_collateral = record {
    positions = [];
    total_value_usd = N.literal 0 0;
    available_borrow_usd = N.literal 0 0;
    health_factor = N.infinity;
  }

  abbrev pub initial_portfolio_state : PortfolioState N
  initial_portfolio_state = record {
    supply = [];
    borrow = [];
    collateral = empty_collateral;
    health_factor = N.infinity;
    max_borrow_usd = N.literal 0 0;
    stats = none;
    loading = false;
    transaction_pending = false;
    error = none;
  }

  abbrev pub initial_prices_state : PricesState N
  initial_prices_state = record { prices = [] }

  -- The store at the start. The state of `auth` is read from the storage when the page is loaded.
  abbrev pub initial_state : Storage → State N
  initial_state s = record {
    auth = initial_auth_state s;
    markets = initial_markets_state;
    portfolio = initial_portfolio_state;
    prices = initial_prices_state;
    governance = initial_governance_state;
  }

  -- `logout` goes back to the state that was read from the storage when the page was loaded, less the wallet.
  unfoldable pub auth_reducer : Storage → AuthState → Action N → AuthState
  auth_reducer page s connect_wallet = record s { loading = true; error = none }
  auth_reducer page s (login address) = record s { loading = true; error = none }
  auth_reducer page s (connect_wallet_success address) = record s {
    address = some address;
    connected = true;
    loading = false;
  }
  auth_reducer page s (login_success address jwt) = record s {
    address = some address;
    jwt = some jwt;
    connected = true;
    loading = false;
    error = none;
  }
  auth_reducer page s (connect_wallet_failure error) = record s {
    loading = false;
    error = some error;
  }
  auth_reducer page s (login_failure error) = record s { loading = false; error = some error }
  auth_reducer page s logout = record (initial_auth_state page) {
    address = none;
    jwt = none;
    connected = false;
  }
  auth_reducer page s _ = s

  unfoldable pub markets_reducer : MarketsState N → Action N → MarketsState N
  markets_reducer s load_markets = record s { loading = true; error = none }
  markets_reducer s (load_markets_success markets) = record s { markets = markets; loading = false }
  markets_reducer s (load_markets_failure error) = record s { loading = false; error = some error }
  markets_reducer s _ = s

  unfoldable pub portfolio_reducer : PortfolioState N → Action N → PortfolioState N
  portfolio_reducer s (load_portfolio address) = record s { loading = true; error = none }
  portfolio_reducer s (load_portfolio_success p) = record {
    supply = p.supply;
    borrow = p.borrow;
    collateral = p.collateral;
    health_factor = p.health_factor;
    max_borrow_usd = p.max_borrow_usd;
    stats = p.stats;
    loading = false;
    transaction_pending = false;
    error = none;
  }
  portfolio_reducer s (load_portfolio_failure error) = record s {
    loading = false;
    error = some error;
  }
  portfolio_reducer s (submit_transaction t) = record s { transaction_pending = true; error = none }
  portfolio_reducer s (submit_transaction_success address) = record s {
    transaction_pending = false;
  }
  portfolio_reducer s (submit_transaction_failure error) = record s {
    transaction_pending = false;
    error = some error;
  }
  portfolio_reducer s _ = s

  unfoldable pub prices_reducer : PricesState N → Action N → PricesState N
  prices_reducer s (price_stream_updated prices) = record s { prices = prices ++ s.prices }
  prices_reducer s _ = s

  -- `item.id === proposal.id ? proposal : item`
  abbrev pub replaced : Proposal → Proposal → Proposal
  replaced proposal item = if text_eq item.id proposal.id then proposal else item

  unfoldable pub governance_reducer : GovernanceState → Action N → GovernanceState
  governance_reducer s load_proposals = record s { loading = true; error = none }
  governance_reducer s (cast_vote ballot) = record s { loading = true; error = none }
  governance_reducer s (load_voting_power address) = record s { loading = true; error = none }
  governance_reducer s (load_proposals_success proposals) = record s {
    proposals = proposals;
    loading = false;
  }
  governance_reducer s (cast_vote_success proposal) = record s {
    proposals = map (replaced proposal) s.proposals;
    loading = false;
  }
  governance_reducer s (load_voting_power_success power) = record s {
    voting_power = power;
    loading = false;
  }
  governance_reducer s (load_proposals_failure error) = record s {
    error = some error;
    loading = false;
  }
  governance_reducer s (cast_vote_failure error) = record s { error = some error; loading = false }
  governance_reducer s _ = s

  -- `provideStore`: each action goes to every reducer.
  unfoldable pub reducer : Storage → State N → Action N → State N
  unfolding auth_reducer markets_reducer portfolio_reducer prices_reducer governance_reducer
  reducer page s a = record {
    auth = auth_reducer page s.auth a;
    markets = markets_reducer s.markets a;
    portfolio = portfolio_reducer s.portfolio a;
    prices = prices_reducer s.prices a;
    governance = governance_reducer s.governance a;
  }
