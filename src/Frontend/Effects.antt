-- ===== src/Frontend/Effects.antt =====
-- The effects of the store (frontend/src/app/store, the `*.effects.ts` files). An effect answers an
-- action by a request to the wallet or the server; its `switchMap` keeps at most one request in
-- flight, the latest, and what comes back of an earlier one is dropped.
use soro_lend.Prelude.{Option, none, some, Bool, true, false, List, []}
use soro_lend.Text.{Text, codes}
use soro_lend.Runtime.{Number}
use soro_lend.Frontend.Models.{Market, Position, CollateralPortfolio, Proposal, ProtocolStats}
use soro_lend.Frontend.Actions.{
  Portfolio, Transaction, Ballot, Action, connect_wallet, connect_wallet_success,
  connect_wallet_failure, login, login_success, login_failure, logout, load_markets,
  load_markets_success, load_markets_failure, load_portfolio, load_portfolio_success,
  load_portfolio_failure, submit_transaction, submit_transaction_success,
  submit_transaction_failure, load_proposals, load_proposals_success, load_proposals_failure,
  cast_vote, cast_vote_success, cast_vote_failure, load_voting_power, load_voting_power_success,
}
use soro_lend.Frontend.Reducers.{Storage}

-- The requests in flight, by the effect that made them.
pub record Requests : Type 0 where
  pub connect : Bool
  pub login : Option Text
  pub markets : Bool
  pub portfolio : Option Text
  pub transaction : Option Transaction
  pub proposals : Bool
  pub vote : Option Ballot
  pub power : Option Text

abbrev pub no_requests : Requests
no_requests = record {
  connect = false;
  login = none;
  markets = false;
  portfolio = none;
  transaction = none;
  proposals = false;
  vote = none;
  power = none;
}

-- A request completes with a value or fails with the message of its error.
pub data Outcome (A : Type 0) : Type 0 where
  completed : A → Outcome A
  failed : Text → Outcome A

-- What `forkJoin` gives: the error, if any, is that of the first request to fail, and `stats` is none
-- where its request failed. The two numbers may be missing in the answers.
pub record Loaded (N : Number) : Type 0 where
  pub supply : List (Position N)
  pub borrow : List (Position N)
  pub collateral : CollateralPortfolio N
  pub health_factor : Option N.Value
  pub available_borrow_usd : Option N.Value
  pub stats : Option (ProtocolStats N)

-- `a ?? b`
abbrev pub or_else : {A : Type 0} → Option A → A → A
or_else none b = b
or_else (some a) b = a

-- The answer to a request of each effect; a login gives an address and a token.
pub data Answer (N : Number) : Type 0 where
  connect_answer : Outcome Text → Answer N
  login_answer : Outcome (Text × Text) → Answer N
  markets_answer : Outcome (List (Market N)) → Answer N
  portfolio_answer : Outcome (Loaded N) → Answer N
  transaction_answer : Outcome (Position N) → Answer N
  proposals_answer : Outcome (List Proposal) → Answer N
  vote_answer : Outcome Proposal → Answer N
  power_answer : Outcome Text → Answer N

abbrev pub is_some : {A : Type 0} → Option A → Bool
is_some none = false
is_some (some a) = true

-- The wallet of the transaction in flight, for the `address` of its success; no answer comes without
-- one in flight.
abbrev pub address_of : Option Transaction → Text
address_of none = []
address_of (some t) = t.address

module _ {N : Number} where
  -- `ofType(…)` and `switchMap`: the request that an action starts.
  unfoldable pub opened : Requests → Action N → Requests
  opened r connect_wallet = record r { connect = true }
  opened r (connect_wallet_success address) = record r { login = some address }
  opened r (login address) = record r { login = some address }
  opened r load_markets = record r { markets = true }
  opened r (load_portfolio address) = record r { portfolio = some address }
  opened r (submit_transaction t) = record r { transaction = some t }
  opened r load_proposals = record r { proposals = true }
  opened r (cast_vote ballot) = record r { vote = some ballot }
  opened r (load_voting_power address) = record r { power = some address }
  opened r _ = r

  -- Whether the request of an answer is in flight, and the requests without it.
  abbrev pub awaited : Requests → Answer N → Bool
  awaited r (connect_answer o) = r.connect
  awaited r (login_answer o) = is_some r.login
  awaited r (markets_answer o) = r.markets
  awaited r (portfolio_answer o) = is_some r.portfolio
  awaited r (transaction_answer o) = is_some r.transaction
  awaited r (proposals_answer o) = r.proposals
  awaited r (vote_answer o) = is_some r.vote
  awaited r (power_answer o) = is_some r.power

  abbrev pub closed : Requests → Answer N → Requests
  closed r (connect_answer o) = record r { connect = false }
  closed r (login_answer o) = record r { login = none }
  closed r (markets_answer o) = record r { markets = false }
  closed r (portfolio_answer o) = record r { portfolio = none }
  closed r (transaction_answer o) = record r { transaction = none }
  closed r (proposals_answer o) = record r { proposals = false }
  closed r (vote_answer o) = record r { vote = none }
  closed r (power_answer o) = record r { power = none }

  -- `healthFactor: health.healthFactor ?? collateral.healthFactor`, and so on
  unfoldable pub portfolio_of : Loaded N → Portfolio N
  portfolio_of l = record {
    supply = l.supply;
    borrow = l.borrow;
    collateral = l.collateral;
    health_factor = or_else l.health_factor l.collateral.health_factor;
    max_borrow_usd = or_else l.available_borrow_usd l.collateral.available_borrow_usd;
    stats = l.stats;
  }

  -- `map(…)` and `catchError(…)` of each effect: the action that an answer is turned into.
  abbrev pub connect_answered : Outcome Text → Action N
  connect_answered (completed address) = connect_wallet_success address
  connect_answered (failed error) = connect_wallet_failure error

  abbrev pub login_answered : Outcome (Text × Text) → Action N
  login_answered (completed (address, jwt)) = login_success address jwt
  login_answered (failed error) = login_failure error

  abbrev pub markets_answered : Outcome (List (Market N)) → Action N
  markets_answered (completed markets) = load_markets_success markets
  markets_answered (failed error) = load_markets_failure error

  unfoldable pub portfolio_answered : Outcome (Loaded N) → Action N
  unfolding portfolio_of
  portfolio_answered (completed l) = load_portfolio_success (portfolio_of l)
  portfolio_answered (failed error) = load_portfolio_failure error

  abbrev pub transaction_answered : Option Transaction → Outcome (Position N) → Action N
  transaction_answered t (completed position) = submit_transaction_success (address_of t)
  transaction_answered t (failed error) = submit_transaction_failure error

  abbrev pub proposals_answered : Outcome (List Proposal) → Action N
  proposals_answered (completed proposals) = load_proposals_success proposals
  proposals_answered (failed error) = load_proposals_failure error

  abbrev pub vote_answered : Outcome Proposal → Action N
  vote_answered (completed proposal) = cast_vote_success proposal
  vote_answered (failed error) = cast_vote_failure error

  abbrev pub power_answered : Outcome Text → Action N
  power_answered (completed power) = load_voting_power_success power
  power_answered (failed error) = load_voting_power_success (codes "0")

  unfoldable pub answered : Requests → Answer N → Action N
  unfolding portfolio_answered
  answered r (connect_answer o) = connect_answered o
  answered r (login_answer o) = login_answered o
  answered r (markets_answer o) = markets_answered o
  answered r (portfolio_answer o) = portfolio_answered o
  answered r (transaction_answer o) = transaction_answered r.transaction o
  answered r (proposals_answer o) = proposals_answered o
  answered r (vote_answer o) = vote_answered o
  answered r (power_answer o) = power_answered o

  -- The effects `persist$` and `clear$`.
  unfoldable pub stored : Storage → Action N → Storage
  stored s (login_success address jwt) = record { address = some address; jwt = some jwt }
  stored s logout = record { address = none; jwt = none }
  stored s _ = s

  -- The effect `refreshAfterTransaction$`: the action that follows an action at once.
  unfoldable pub refresh : Action N → Option (Action N)
  refresh (submit_transaction_success address) = some (load_portfolio address)
  refresh _ = none
