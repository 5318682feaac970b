-- ===== src/Frontend/Pages/Layout.antt =====
-- What is around the pages (frontend/src/app: layout, shared/wallet-connect, app.component.ts), and
-- the routes (app.routes.ts).
use soro_lend.Prelude.{List, [], ◌∷◌, ◌++◌, if◌then◌else◌}
use soro_lend.Text.{Text, codes, text_eq, truthy}
use soro_lend.Runtime.{Number}
use soro_lend.Frontend.Models.{Market}
use soro_lend.Frontend.Reducers.{State}
use soro_lend.Frontend.Selectors.{
  select_markets, select_wallet_address, select_is_connected, select_auth_loading,
  select_auth_error,
}
use soro_lend.Frontend.Components.{short_address}
use soro_lend.Frontend.Forms.{Form}
use soro_lend.Frontend.Html.{
  Node, connects, shown, element, button, nodes, classed, plain_element, text_element, each,
}
use soro_lend.Frontend.Pages.{Pipes, error_line}
use soro_lend.Frontend.Pages.Transactions.{lending_page, borrowing_page, collateral_page}
use soro_lend.Frontend.Pages.Overview.{dashboard_page, portfolio_page}
use soro_lend.Frontend.Pages.Ballots.{governance_page}

-- The components that `routes` loads.
pub data Page : Type 0 where
  dashboard lending borrowing collateral portfolio governance : Page

-- `routes`: the page of a path without its first slash; any other path goes to the first route.
unfoldable pub route : Text → Page
unfolding text_eq
route path =
    if text_eq path (codes "lend")
    then lending
    else if text_eq path (codes "borrow")
    then borrowing
    else if text_eq path (codes "collateral")
    then collateral
    else if text_eq path (codes "portfolio")
    then portfolio
    else if text_eq path (codes "governance")
    then governance
    else dashboard

-- The paths and labels of the navigation of HeaderComponent.
abbrev pub links : List (Text × Text)
links =
    ([], codes "Dashboard")
    ∷ (codes "lend", codes "Lend")
    ∷ (codes "borrow", codes "Borrow")
    ∷ (codes "collateral", codes "Collateral")
    ∷ (codes "portfolio", codes "Portfolio")
    ∷ (codes "governance", codes "Governance")
    ∷ []

abbrev pub link : Text × Text → Node
link (path, label) =
    element (codes "a") ((codes "routerLink", codes "/" ++ path) ∷ []) (nodes (shown label ∷ []))

-- FooterComponent
abbrev pub footer : Node
footer = classed (codes "footer") (codes "footer") (
    text_element (codes "span") (codes "SoroLend testnet console")
    ∷ text_element (codes "span") (codes "Real-time lending, borrowing, collateral, and governance")
    ∷ [])

module _ {N : Number} where
  -- WalletConnectComponent
  unfoldable pub wallet_connect : State N → List Node
  wallet_connect s =
      button (record {
        disabled = select_auth_loading s;
        press = connects;
        label =
            if select_is_connected s
            then short_address (select_wallet_address s)
            else codes "Connect Freighter";
      })
      ∷ error_line (truthy (select_auth_error s))

  -- HeaderComponent
  unfoldable pub header : State N → Node
  unfolding wallet_connect
  header s = classed (codes "header") (codes "topbar") (
      element (codes "a") ((codes "class", codes "brand") ∷ (codes "routerLink", codes "/") ∷ [])
        (nodes (shown (codes "SoroLend") ∷ []))
      ∷ classed (codes "nav") (codes "topnav") (each link links)
      ∷ plain_element (codes "sl-wallet-connect") (wallet_connect s)
      ∷ [])

  module _ (pipes : Pipes N) where
    abbrev pub sidebar_row : Market N → Node
    sidebar_row m = classed (codes "div") (codes "market-row") (
        text_element (codes "strong") m.code
        ∷ text_element (codes "span") (pipes.price m.oracle_price)
        ∷ [])

    -- `@for … @empty`
    abbrev pub sidebar_rows : List (Market N) → List Node
    sidebar_rows [] =
        classed (codes "div") (codes "muted") (shown (codes "No markets loaded") ∷ []) ∷ []
    sidebar_rows (m ∷ ms) = sidebar_row m ∷ each sidebar_row ms

    -- SidebarComponent
    unfoldable pub sidebar : State N → Node
    sidebar s =
        classed (codes "aside") (codes "sidebar")
          (text_element (codes "h2") (codes "Markets") ∷ sidebar_rows (select_markets s))

    -- What the router puts in its outlet. A page without a form takes none.
    unfoldable pub page_of : Page → State N → Form → Node
    unfolding lending_page borrowing_page collateral_page dashboard_page portfolio_page
        governance_page
    page_of dashboard s f = dashboard_page pipes s
    page_of lending s f = lending_page pipes s f
    page_of borrowing s f = borrowing_page pipes s f
    page_of collateral s f = collateral_page pipes s f
    page_of portfolio s f = portfolio_page pipes s
    page_of governance s f = governance_page pipes s

    -- AppComponent, on a path.
    unfoldable pub app : Text → State N → Form → Node
    unfolding header sidebar page_of
    app path s f = plain_element (codes "sl-root") (
        header s
        ∷ classed (codes "div") (codes "app-shell") (
            sidebar s
            ∷ classed (codes "main") (codes "app-main") (page_of (route path) s f ∷ [])
            ∷ [])
        ∷ footer
        ∷ [])
