-- ===== src/Frontend/Pages/Transactions.antt =====
-- The pages with transactions: LendingComponent, BorrowingComponent and CollateralComponent
-- (frontend/src/app/features), as functions of the store and the form.
use soro_lend.Prelude.{◌||◌, Option, none, some, [], ◌∷◌, ◌++◌}
use soro_lend.Text.{Text, codes, truthy}
use soro_lend.Runtime.{Number}
use soro_lend.Frontend.Models.{Market}
use soro_lend.Frontend.Actions.{
  Kind, supply, withdraw, borrow, repay, deposit_collateral, withdraw_collateral,
}
use soro_lend.Frontend.Reducers.{State}
use soro_lend.Frontend.Effects.{or_else}
use soro_lend.Frontend.Selectors.{
  select_markets, select_markets_loading, select_markets_error, select_portfolio_error,
  select_transaction_pending, select_borrow_positions, select_collateral_portfolio,
  select_health_factor, select_max_borrow_usd,
}
use soro_lend.Frontend.Components.{gauge_value}
use soro_lend.Frontend.Forms.{Form, is_invalid}
use soro_lend.Frontend.Html.{
  Node, Press, submits, shown, element, button, nodes, classed, text_element, each, when,
}
use soro_lend.Frontend.Pages.{
  Pipes, page_header, page, panel, value_panel, error_line, health_badge, market_option,
  position_row,
}

module _ {N : Number} where
  -- The select, the input and the button that submits, with the values of the form's controls.
  abbrev pub form_grid : State N → Form → Press → Text → Node
  form_grid s f press label = classed (codes "div") (codes "form-grid") (
      element (codes "select")
        ((codes "formControlName", codes "assetCode") ∷ (codes "value", f.asset_code) ∷ [])
        (nodes (each market_option (select_markets s)))
      ∷ element (codes "input")
          ((codes "formControlName", codes "amount") ∷ (codes "value", f.amount) ∷ []) (nodes [])
      ∷ button (record {
        disabled = is_invalid f || select_transaction_pending s;
        press = press;
        label = label;
      })
      ∷ [])

  -- The form of a page with transactions: the first button submits the form, the second is below it.
  unfoldable pub transaction_form : Text → Kind → Text → Kind → Text → State N → Form → Node
  transaction_form heading first first_label second second_label s f =
      classed (codes "form") (codes "panel") (
        text_element (codes "h2") heading
        ∷ form_grid s f (submits first) first_label
        ∷ button (record {
          disabled = is_invalid f || select_transaction_pending s;
          press = submits second;
          label = second_label;
        })
        ∷ [])

module _ {N : Number} (pipes : Pipes N) where
  open pipes use {currency, percent, decimal}

  abbrev pub market_row : Market N → Node
  market_row m = classed (codes "div") (codes "position-row") (
      text_element (codes "strong") m.code
      ∷ text_element (codes "span")
          (codes "Supply " ++ percent (or_else m.supply_apy (N.literal 42 3)))
      ∷ text_element (codes "span")
          (codes "Borrow " ++ percent (or_else m.borrow_apy (N.literal 71 3)))
      ∷ [])

  -- `(marketError$ | async) || (portfolioError$ | async)`
  abbrev pub first_error : Option Text → Option Text → Option Text
  first_error (some e) other = some e
  first_error none other = other

  -- LendingComponent
  unfoldable pub lending_page : State N → Form → Node
  unfolding transaction_form
  lending_page s f = page (
      page_header (codes "Lending")
        (codes "Supply assets to earn APY or withdraw available liquidity.")
        (when (select_transaction_pending s)
          (classed (codes "strong") (codes "muted") (shown (codes "Transaction pending") ∷ [])))
      ∷ panel (
          text_element (codes "h2") (codes "Markets")
          ∷ (when (select_markets_loading s)
                (classed (codes "p") (codes "muted") (shown (codes "Loading markets...") ∷ []))
              ++ each market_row (select_markets s)))
      ∷ transaction_form (codes "Supply / Withdraw") supply (codes "Supply") withdraw
          (codes "Withdraw") s f
      ∷ error_line
          (first_error (truthy (select_markets_error s)) (truthy (select_portfolio_error s))))

  -- BorrowingComponent
  unfoldable pub borrowing_page : State N → Form → Node
  unfolding transaction_form health_badge
  borrowing_page s f = page (
      page_header (codes "Borrowing")
        (codes "Borrow against collateral, repay debt, and monitor risk.")
        (health_badge N (select_health_factor s) ∷ [])
      ∷ panel (
          classed (codes "div") (codes "metric") (
            text_element (codes "span") (codes "Max Borrow")
            ∷ text_element (codes "strong") (currency (select_max_borrow_usd s))
            ∷ [])
          ∷ each (position_row pipes []) (select_borrow_positions s))
      ∷ transaction_form (codes "Borrow / Repay") borrow (codes "Borrow") repay (codes "Repay") s f
      ∷ [])

  -- CollateralComponent
  unfoldable pub collateral_page : State N → Form → Node
  unfolding transaction_form health_badge
  collateral_page s f =
      let total = (select_collateral_portfolio s).total_value_usd in
      page (
        page_header (codes "Collateral")
          (codes "Manage backing assets and available borrowing power.")
          (health_badge N (select_health_factor s) ∷ [])
        ∷ classed (codes "div") (codes "grid") (
            value_panel (codes "Collateral") (currency total)
            ∷ value_panel (codes "Available to Borrow") (currency (select_max_borrow_usd s))
            ∷ panel (
                classed (codes "span") (codes "muted") (shown (codes "Borrow Gauge") ∷ [])
                ∷ element (codes "progress")
                    ((codes "max", codes "100")
                      ∷ (codes "value", N.to_string (gauge_value N (select_max_borrow_usd s) total))
                      ∷ [])
                    (nodes [])
                ∷ [])
            ∷ [])
        ∷ panel (
            text_element (codes "h2") (codes "Breakdown")
            ∷ each (position_row pipes []) (select_collateral_portfolio s).positions)
        ∷ transaction_form (codes "Deposit / Withdraw") deposit_collateral (codes "Deposit")
            withdraw_collateral (codes "Withdraw") s f
        ∷ [])
