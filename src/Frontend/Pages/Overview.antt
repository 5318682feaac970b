-- ===== src/Frontend/Pages/Overview.antt =====
-- DashboardComponent and PortfolioComponent (frontend/src/app/features), as functions of the store.
use soro_lend.Prelude.{Option, none, some, List, [], ◌∷◌, ◌++◌, ℕ}
use soro_lend.Prelude.Int.{pos}
use soro_lend.Text.{Text, codes}
use soro_lend.Text.Decimal.{to_text}
use soro_lend.Runtime.{Number}
use soro_lend.Frontend.Models.{Position, ProtocolStats}
use soro_lend.Frontend.Reducers.{State}
use soro_lend.Frontend.Selectors.{
  select_borrow_positions, select_supply_positions, select_collateral_portfolio,
  select_health_factor, select_net_apy, select_protocol_stats,
}
use soro_lend.Frontend.Components.{supply_apy, borrow_apy, liquidation_price, bars}
use soro_lend.Frontend.Html.{Node, shown, element, nodes, classed, text_element, each}
use soro_lend.Frontend.Pages.{
  Pipes, page_header, page, panel, value_panel, health_badge, position_row,
}

module _ {N : Number} (pipes : Pipes N) where
  open pipes use {currency, percent, decimal}

  abbrev pub tvl_of : Option (ProtocolStats N) → N.Value
  tvl_of none = N.literal 0 0
  tvl_of (some stats) = stats.tvl_usd

  -- DashboardComponent
  unfoldable pub dashboard_page : State N → Node
  unfolding health_badge
  dashboard_page s =
      let collateral = select_collateral_portfolio s in
      page (
        page_header (codes "Dashboard")
          (codes "Portfolio health, market exposure, and protocol activity.")
          (health_badge N (select_health_factor s) ∷ [])
        ∷ classed (codes "div") (codes "grid") (
            value_panel (codes "Collateral Value") (currency collateral.total_value_usd)
            ∷ value_panel (codes "Supply APY") (percent (supply_apy s))
            ∷ value_panel (codes "Borrow APY") (percent (borrow_apy N))
            ∷ [])
        ∷ classed (codes "div") (codes "grid") (
            value_panel (codes "Liquidation Price") (currency (liquidation_price s))
            ∷ value_panel (codes "Available Borrow") (currency collateral.available_borrow_usd)
            ∷ value_panel (codes "Protocol TVL") (currency (tvl_of (select_protocol_stats s)))
            ∷ [])
        ∷ panel (
            text_element (codes "h2") (codes "Positions")
            ∷ (each (position_row pipes (codes "Supplied ")) (select_supply_positions s)
                ++ each (position_row pipes (codes "Borrowed ")) (select_borrow_positions s)))
        ∷ [])

  abbrev pub holdings : Text → List (Position N) → Node
  holdings heading positions =
      panel (text_element (codes "h2") heading ∷ each (position_row pipes []) positions)

  abbrev pub bar : ℕ → Node
  bar height =
      element (codes "span")
        ((codes "style", codes "height: " ++ (to_text (pos height) ++ codes "%")) ∷ []) (nodes [])

  -- PortfolioComponent
  unfoldable pub portfolio_page : State N → Node
  portfolio_page s = page (
      page_header (codes "Portfolio")
        (codes "Consolidated supply, borrow, and collateral exposure.")
        (classed (codes "strong") (codes "value") (shown (percent (select_net_apy s)) ∷ []) ∷ [])
      ∷ classed (codes "div") (codes "grid") (
          holdings (codes "Supply") (select_supply_positions s)
          ∷ holdings (codes "Borrow") (select_borrow_positions s)
          ∷ holdings (codes "Collateral") (select_collateral_portfolio s).positions
          ∷ [])
      ∷ panel (
          text_element (codes "h2") (codes "Historical Performance")
          ∷ classed (codes "div") (codes "chart-stub") (each bar bars)
          ∷ [])
      ∷ [])
