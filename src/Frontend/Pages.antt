-- ===== src/Frontend/Pages.antt =====
-- What the templates of the pages share (frontend/src/app/features; the badge is that of
-- frontend/src/app/shared/health-factor-badge).
pub mod Layout
pub mod Transactions
pub mod Overview
pub mod Ballots
pub mod Buttons
pub mod Clicks
use soro_lend.Prelude.{Bool, true, false, ◌||◌, Option, none, some, List, [], ◌∷◌, ◌++◌, ℕ, map}
use soro_lend.Prelude.Int.{pos}
use soro_lend.Text.{Text, codes, truthy}
use soro_lend.Text.Decimal.{to_text}
use soro_lend.Runtime.{Number}
use soro_lend.Schema.{ProposalStatus, pending, active, succeeded, defeated, executed}
use soro_lend.Frontend.Models.{Market, Position, Proposal, ProtocolStats}
use soro_lend.Frontend.Actions.{
  Kind, supply, withdraw, borrow, repay, deposit_collateral, withdraw_collateral,
}
use soro_lend.Frontend.Reducers.{State}
use soro_lend.Frontend.Effects.{or_else}
use soro_lend.Frontend.Selectors.{
  select_markets, select_markets_loading, select_markets_error, select_portfolio_error,
  select_transaction_pending, select_borrow_positions, select_supply_positions,
  select_collateral_portfolio, select_health_factor, select_max_borrow_usd, select_net_apy,
  select_protocol_stats, select_proposals, select_voting_power, select_governance_loading,
  select_governance_error,
}
use soro_lend.Frontend.Badge.{Classes, classes, display_value, tooltip}
use soro_lend.Frontend.Components.{supply_apy, borrow_apy, liquidation_price, gauge_value, bars}
use soro_lend.Frontend.Forms.{Form, is_invalid}
use soro_lend.Frontend.Html.{
  Node, Press, submits, votes, shown, element, button, nodes, classed, plain_element, text_element,
  each, when,
}

-- Angular's pipes: `currency`, `percent: '1.2-2'`, `number` and `number: '1.2-6'`. A pipe that throws,
-- as `number` does on a text that is no number, is not modelled.
pub record Pipes (N : Number) : Type 0 where
  pub currency : N.Value → Text
  pub percent : N.Value → Text
  pub decimal : Text → Text
  pub price : Text → Text

-- What is in all pages: the header with the title and the line below it.
abbrev pub title : Text → Text → Node
title heading line =
    plain_element (codes "div") (
      text_element (codes "h1") heading
      ∷ classed (codes "p") (codes "muted") (shown line ∷ [])
      ∷ [])

abbrev pub page_header : Text → Text → List Node → Node
page_header heading line rest =
    classed (codes "div") (codes "page-header") (title heading line ∷ rest)

abbrev pub page : List Node → Node
page content = classed (codes "section") (codes "page") content

abbrev pub panel : List Node → Node
panel content = classed (codes "article") (codes "panel") content

-- A panel of the grid, with its label and its value.
abbrev pub value_panel : Text → Text → Node
value_panel label value = panel (
    classed (codes "span") (codes "muted") (shown label ∷ [])
    ∷ classed (codes "strong") (codes "value") (shown value ∷ [])
    ∷ [])

abbrev pub row : Text → Text → Node
row label value =
    classed (codes "div") (codes "position-row")
      (text_element (codes "span") label ∷ text_element (codes "strong") value ∷ [])

-- `@if (error; as error)`
abbrev pub error_line : Option Text → List Node
error_line none = []
error_line (some error) = classed (codes "p") (codes "inline-error") (shown error ∷ []) ∷ []

abbrev pub if_on : Bool → Text → Text
if_on true t = t
if_on false t = []

-- The classes that are on.
abbrev pub class_names : Classes → Text
class_names c =
    codes "health-badge"
    ++ (if_on c.safe (codes " safe")
        ++ (if_on c.warning (codes " warning") ++ if_on c.danger (codes " danger")))

-- HealthFactorBadgeComponent
unfoldable pub health_badge : (N : Number) → N.Value → Node
health_badge N health =
    element (codes "span")
      ((codes "class", class_names (classes N health)) ∷ (codes "title", tooltip N health) ∷ [])
      (nodes (shown (display_value N health) ∷ []))

module _ {N : Number} where
  -- `<option [value]="market.code">`
  abbrev pub market_option : Market N → Node
  market_option m =
      element (codes "option") ((codes "value", m.code) ∷ []) (nodes (shown m.code ∷ []))

  abbrev pub position_row : Pipes N → Text → Position N → Node
  position_row pipes prefix p = row (prefix ++ p.asset_code) (pipes.decimal p.amount)
