-- ===== src/Frontend/Pages/Buttons.antt =====
-- The buttons of the pages.
use soro_lend.Prelude.{
  ◌≡◌, refl, sym, Bool, true, false, ◌||◌, Option, none, some, List, [], ◌∷◌, ◌++◌,
}
use mathlib.Core.List.{append_assoc, append-nil}
use soro_lend.Text.{Text, codes, truthy}
use soro_lend.Runtime.{Number}
use soro_lend.Frontend.Models.{Proposal}
use soro_lend.Frontend.Actions.{
  Kind, supply, withdraw, borrow, repay, deposit_collateral, withdraw_collateral,
}
use soro_lend.Frontend.Reducers.{State}
use soro_lend.Frontend.Forms.{Form, is_invalid}
use soro_lend.Frontend.Components.{bars}
use soro_lend.Frontend.Html.{Node, nodes, submits, votes, Button, buttons, buttons_in, each, when}
use soro_lend.Frontend.Pages.{Pipes, error_line, market_option, position_row}
use soro_lend.Frontend.Pages.Transactions.{
  first_error, transaction_form, market_row, lending_page, borrowing_page, collateral_page,
}
use soro_lend.Frontend.Pages.Overview.{dashboard_page, portfolio_page, bar}
use soro_lend.Frontend.Pages.Ballots.{governance_page, proposal_panel, proposal_panels}
use soro_lend.Frontend.Pages.Layout.{
  Page, dashboard, lending, borrowing, collateral, portfolio, governance, page_of,
}

-- Rows without buttons.
module _ {A : Type 0} (row : A → Node) (plain : (x : A) → buttons (row x) ≡ []) where
  pub buttons-each : (xs : List A) → buttons_in (nodes (each row xs)) ≡ []
  unfolding buttons each
  buttons-each [] = refl
  buttons-each (x ∷ xs) = rw (plain x, buttons-each xs)

  pub buttons-each-append :
      (xs : List A) (rest : List Node)
      → buttons_in (nodes (each row xs ++ rest)) ≡ buttons_in (nodes rest)
  unfolding buttons each
  buttons-each-append [] rest = refl
  buttons-each-append (x ∷ xs) rest = rw (plain x, buttons-each-append xs rest)

pub buttons_in-append :
    (xs ys : List Node)
    → buttons_in (nodes (xs ++ ys)) ≡ buttons_in (nodes xs) ++ buttons_in (nodes ys)
unfolding buttons
buttons_in-append [] ys = refl
buttons_in-append (x ∷ xs) ys =
    rw (buttons_in-append xs ys)
      (sym (append_assoc (buttons x) (buttons_in (nodes xs)) (buttons_in (nodes ys))))

pub buttons-error_line : (e : Option Text) → buttons_in (nodes (error_line e)) ≡ []
unfolding buttons
buttons-error_line none = refl
buttons-error_line (some t) = refl

buttons-when : (b : Bool) (x : Node) → buttons x ≡ [] → buttons_in (nodes (when b x)) ≡ []
unfolding buttons
buttons-when true x h = rw h
buttons-when false x h = refl

-- The two buttons of a form.
abbrev pub form_buttons : Bool → Kind → Text → Kind → Text → List Button
form_buttons disabled first label second label' =
    record { disabled = disabled; press = submits first; label = label }
    ∷ record { disabled = disabled; press = submits second; label = label' }
    ∷ []

-- The two buttons of each proposal.
abbrev pub ballot_buttons : List Proposal → List Button
ballot_buttons [] = []
ballot_buttons (p ∷ ps) =
    record { disabled = false; press = votes p.id true; label = codes "For" }
    ∷ record { disabled = false; press = votes p.id false; label = codes "Against" }
    ∷ ballot_buttons ps

module _ {N : Number} where
  abbrev pub is_held : State N → Form → Bool
  is_held s f = is_invalid f || s.portfolio.transaction_pending

  -- The buttons that a page is to have.
  abbrev pub intended : Page → State N → Form → List Button
  intended lending s f =
      form_buttons (is_held s f) supply (codes "Supply") withdraw (codes "Withdraw")
  intended borrowing s f = form_buttons (is_held s f) borrow (codes "Borrow") repay (codes "Repay")
  intended collateral s f =
      form_buttons (is_held s f) deposit_collateral (codes "Deposit") withdraw_collateral
        (codes "Withdraw")
  intended governance s f = ballot_buttons s.governance.proposals
  intended dashboard s f = []
  intended portfolio s f = []

  module _ (pipes : Pipes N) where
    buttons-transaction_form :
        (heading label label' : Text) (first second : Kind) (s : State N) (f : Form)
        → buttons (transaction_form heading first label second label' s f)
          ≡ form_buttons (is_held s f) first label second label'
    unfolding transaction_form buttons
    buttons-transaction_form heading label label' first second s f =
        rw (buttons-each market_option (λ m. refl) s.markets.markets)

    buttons-lending_page :
        (s : State N) (f : Form) → buttons (lending_page pipes s f) ≡ intended lending s f
    unfolding lending_page buttons
    buttons-lending_page s f =
        let markets = buttons-each (market_row pipes) (λ m. refl) s.markets.markets in
        let options = buttons-each market_option (λ m. refl) s.markets.markets in
        rw
          (
            buttons-when s.portfolio.transaction_pending _ refl,
            buttons_in-append (when s.markets.loading _)
                (each (market_row pipes) s.markets.markets),
            buttons-when s.markets.loading _ refl,
            markets,
            options,
            buttons-error_line
                (first_error pipes (truthy s.markets.error) (truthy s.portfolio.error)),
          )
          refl

    buttons-borrowing_page :
        (s : State N) (f : Form) → buttons (borrowing_page pipes s f) ≡ intended borrowing s f
    unfolding borrowing_page buttons
    buttons-borrowing_page s f =
        rw
          (
            buttons-each (position_row pipes []) (λ p. refl) s.portfolio.borrow,
            buttons-each market_option (λ m. refl) s.markets.markets,
          )
          refl

    buttons-collateral_page :
        (s : State N) (f : Form) → buttons (collateral_page pipes s f) ≡ intended collateral s f
    unfolding collateral_page buttons
    buttons-collateral_page s f =
        rw
          (
            buttons-each (position_row pipes []) (λ p. refl) s.portfolio.collateral.positions,
            buttons-each market_option (λ m. refl) s.markets.markets,
          )
          refl

    buttons-dashboard_page : (s : State N) → buttons (dashboard_page pipes s) ≡ []
    unfolding dashboard_page buttons
    buttons-dashboard_page s =
        rw
          (
            buttons-each-append (position_row pipes (codes "Supplied ")) (λ p. refl)
                s.portfolio.supply
                (each (position_row pipes (codes "Borrowed ")) s.portfolio.borrow),
            buttons-each (position_row pipes (codes "Borrowed ")) (λ p. refl) s.portfolio.borrow,
          )
          refl

    buttons-portfolio_page : (s : State N) → buttons (portfolio_page pipes s) ≡ []
    unfolding portfolio_page buttons
    buttons-portfolio_page s =
        rw
          (
            buttons-each (position_row pipes []) (λ p. refl) s.portfolio.supply,
            buttons-each (position_row pipes []) (λ p. refl) s.portfolio.borrow,
            buttons-each (position_row pipes []) (λ p. refl) s.portfolio.collateral.positions,
            buttons-each (bar pipes) (λ h. refl) bars,
          )
          refl

    buttons-proposals :
        (ps : List Proposal)
        → buttons_in (nodes (each (proposal_panel pipes) ps)) ≡ ballot_buttons ps
    unfolding buttons each
    buttons-proposals [] = refl
    buttons-proposals (p ∷ ps) = rw (buttons-proposals ps)

    buttons-proposal_panels :
        (ps : List Proposal) → buttons_in (nodes (proposal_panels pipes ps)) ≡ ballot_buttons ps
    unfolding buttons
    buttons-proposal_panels [] = refl
    buttons-proposal_panels (p ∷ ps) = rw (buttons-proposals ps)

    buttons-governance_page :
        (s : State N) (f : Form) → buttons (governance_page pipes s) ≡ intended governance s f
    unfolding governance_page buttons
    buttons-governance_page s f =
        let errors = error_line (truthy s.governance.error) in
        let panels = proposal_panels pipes s.governance.proposals in
        rw
          (
            buttons_in-append (when s.governance.loading _) (panels ++ errors),
            buttons-when s.governance.loading _ refl,
            buttons_in-append panels errors,
            buttons-proposal_panels s.governance.proposals,
            buttons-error_line (truthy s.governance.error),
            append-nil (ballot_buttons s.governance.proposals),
          )
          refl

    -- Each page has the buttons that it is to have, in this order, and no other.
    pub buttons-page_of :
        (g : Page) (s : State N) (f : Form) → buttons (page_of pipes g s f) ≡ intended g s f
    unfolding page_of
    buttons-page_of lending s f = buttons-lending_page s f
    buttons-page_of borrowing s f = buttons-borrowing_page s f
    buttons-page_of collateral s f = buttons-collateral_page s f
    buttons-page_of governance s f = buttons-governance_page s f
    buttons-page_of dashboard s f = buttons-dashboard_page s
    buttons-page_of portfolio s f = buttons-portfolio_page s
