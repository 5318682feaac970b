-- ===== src/Frontend/Selectors.antt =====
-- The selectors of the store (frontend/src/app/store, the `*.selectors.ts` files).
use soro_lend.Prelude.{Bool, ◌&&◌, Option, List, [], ◌∷◌, if◌then◌else◌}
use soro_lend.Text.{Text, is_truthy}
use soro_lend.Runtime.{Number}
use soro_lend.Frontend.Models.{Market, Position, CollateralPortfolio, Proposal, ProtocolStats}
use soro_lend.Frontend.Actions.{Prices}
use soro_lend.Frontend.Reducers.{State}

module _ {N : Number} where
  abbrev pub select_wallet_address : State N → Option Text
  select_wallet_address s = s.auth.address

  abbrev pub select_is_connected : State N → Bool
  select_is_connected s = s.auth.connected

  abbrev pub select_auth_loading : State N → Bool
  select_auth_loading s = s.auth.loading

  abbrev pub select_auth_error : State N → Option Text
  select_auth_error s = s.auth.error

  abbrev pub select_proposals : State N → List Proposal
  select_proposals s = s.governance.proposals

  abbrev pub select_voting_power : State N → Text
  select_voting_power s = s.governance.voting_power

  abbrev pub select_governance_loading : State N → Bool
  select_governance_loading s = s.governance.loading

  abbrev pub select_governance_error : State N → Option Text
  select_governance_error s = s.governance.error

  abbrev pub select_markets : State N → List (Market N)
  select_markets s = s.markets.markets

  abbrev pub select_markets_loading : State N → Bool
  select_markets_loading s = s.markets.loading

  abbrev pub select_markets_error : State N → Option Text
  select_markets_error s = s.markets.error

  abbrev pub select_supply_positions : State N → List (Position N)
  select_supply_positions s = s.portfolio.supply

  abbrev pub select_borrow_positions : State N → List (Position N)
  select_borrow_positions s = s.portfolio.borrow

  abbrev pub select_collateral_portfolio : State N → CollateralPortfolio N
  select_collateral_portfolio s = s.portfolio.collateral

  abbrev pub select_health_factor : State N → N.Value
  select_health_factor s = s.portfolio.health_factor

  abbrev pub select_max_borrow_usd : State N → N.Value
  select_max_borrow_usd s = s.portfolio.max_borrow_usd

  abbrev pub select_protocol_stats : State N → Option (ProtocolStats N)
  select_protocol_stats s = s.portfolio.stats

  abbrev pub select_portfolio_loading : State N → Bool
  select_portfolio_loading s = s.portfolio.loading

  abbrev pub select_transaction_pending : State N → Bool
  select_transaction_pending s = s.portfolio.transaction_pending

  abbrev pub select_portfolio_error : State N → Option Text
  select_portfolio_error s = s.portfolio.error

  abbrev pub select_prices : State N → Prices N
  select_prices s = s.prices.prices

  -- `Number(position.amount || 0)`
  abbrev pub amount_of : Position N → N.Value
  amount_of p = if is_truthy p.amount then N.number p.amount else N.literal 0 0

  -- `positions.reduce((total, position) => total + Number(position.amount || 0), 0)`, on the total so
  -- far
  abbrev pub total_amount : N.Value → List (Position N) → N.Value
  total_amount total [] = total
  total_amount total (p ∷ ps) = total_amount (N.add total (amount_of p)) ps

  unfoldable pub select_net_apy : State N → N.Value
  select_net_apy s =
      let zero_value = N.literal 0 0 in
      let supplied = total_amount zero_value (select_supply_positions s) in
      let borrowed = total_amount zero_value (select_borrow_positions s) in
      if N.eq supplied zero_value && N.eq borrowed zero_value
      then zero_value
      else N.div (N.sub (N.mul supplied (N.literal 42 3)) (N.mul borrowed (N.literal 71 3)))
          (N.max (N.add supplied borrowed) (N.literal 1 0))
