-- ===== src/Frontend/Components.antt =====
-- What components compute and dispatch (frontend/src/app: features, layout, shared/wallet-connect,
-- core/services/notification.service.ts and store/prices/prices.effects.ts), besides forms and badge.
pub mod Outer
use soro_lend.Prelude.{
  ℕ, zero, suc, ◌-◌, ◌≡◌, Bool, true, false, ◌&&◌, Option, none, some, List, [], ◌∷◌, ◌++◌, length,
  if◌then◌else◌,
}
use soro_lend.Text.{Text, codes, truthy}
use soro_lend.Runtime.{Number}
use soro_lend.Frontend.Models.{CollateralPortfolio}
use soro_lend.Frontend.Actions.{
  Action, Ballot, Prices, connect_wallet, load_markets, load_portfolio, load_proposals,
  load_voting_power, cast_vote, price_stream_updated,
}
use soro_lend.Frontend.Reducers.{State}
use soro_lend.Frontend.Selectors.{
  select_wallet_address, select_health_factor, select_collateral_portfolio, select_net_apy,
}

abbrev pub first_units : ℕ → Text → Text
first_units zero t = []
first_units (suc n) [] = []
first_units (suc n) (c ∷ t) = c ∷ first_units n t

abbrev pub without_units : ℕ → Text → Text
without_units zero t = t
without_units (suc n) [] = []
without_units (suc n) (c ∷ t) = without_units n t

abbrev pub shortened : Option Text → Text
shortened none = codes "Connect Freighter"
shortened (some a) = first_units 5 a ++ (codes "..." ++ without_units (length a - 5) a)

-- WalletConnectComponent: `address.slice(0, 5)` and `address.slice(-5)`.
unfoldable pub short_address : Option Text → Text
short_address address = shortened (truthy address)

module _ {N : Number} where
  -- `connect()` of WalletConnectComponent
  abbrev pub connect : Action N
  connect = connect_wallet

  -- DashboardComponent
  abbrev pub supply_apy : State N → N.Value
  supply_apy s = N.max (select_net_apy s) (N.literal 42 3)

  unfoldable pub liquidation_price : State N → N.Value
  liquidation_price s =
      let health = select_health_factor s in
      if N.is_finite health && N.lt (N.literal 0 0) health
      then N.div (select_collateral_portfolio s).total_value_usd health
      else N.literal 0 0

  abbrev pub dashboard_loads : Option Text → List (Action N)
  dashboard_loads none = []
  dashboard_loads (some address) = load_portfolio address ∷ []

  -- `ngOnInit()` of DashboardComponent: the actions that it dispatches.
  unfoldable pub dashboard_on_init : State N → List (Action N)
  dashboard_on_init s = dashboard_loads (truthy (select_wallet_address s))

  abbrev pub power_loads : Option Text → List (Action N)
  power_loads none = []
  power_loads (some address) = load_voting_power address ∷ []

  -- GovernanceComponent: what its constructor's subscription dispatches for an address, `ngOnInit`, and
  -- `vote`, which returns early without a wallet.
  unfoldable pub governance_on_address : Option Text → List (Action N)
  governance_on_address address = power_loads (truthy address)

  -- `ngOnInit()` of SidebarComponent
  abbrev pub sidebar_on_init : List (Action N)
  sidebar_on_init = load_markets ∷ []

  abbrev pub governance_on_init : List (Action N)
  governance_on_init = load_proposals ∷ []

  abbrev pub voted : Text → Bool → Option Text → List (Action N)
  voted proposal_id support none = []
  voted proposal_id support (some voter) =
      cast_vote (record { proposal_id = proposal_id; voter = voter; support = support }) ∷ []

  unfoldable pub vote : Option Text → Text → Bool → List (Action N)
  vote current_address proposal_id support = voted proposal_id support (truthy current_address)

  -- `priceStream$`, for a payload of the event `price:update`
  abbrev pub price_stream : Prices N → Action N
  price_stream prices = price_stream_updated prices

module _ (N : Number) where
  -- `borrowApy` of DashboardComponent
  abbrev pub borrow_apy : N.Value
  borrow_apy = N.literal 71 3

  -- `gaugeValue` of CollateralComponent
  unfoldable pub gauge_value : N.Value → N.Value → N.Value
  gauge_value max_borrow collateral =
      if N.lt (N.literal 0 0) collateral
      then N.min (N.literal 100 0) (N.mul (N.div max_borrow collateral) (N.literal 100 0))
      else N.literal 0 0

-- PortfolioComponent
abbrev pub bars : List ℕ
bars = 28 ∷ 34 ∷ 31 ∷ 42 ∷ 48 ∷ 45 ∷ 52 ∷ 58 ∷ 63 ∷ 61 ∷ 68 ∷ 74 ∷ []
