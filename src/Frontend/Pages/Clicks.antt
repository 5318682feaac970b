-- ===== src/Frontend/Pages/Clicks.antt =====
-- What clicks on the buttons dispatch, and which buttons a click disables.
use soro_lend.Prelude.{
  ◌≡◌, refl, sym, arith, ℕ, zero, suc, get_elem?, Bool, true, false, ◌||◌, Option, none, some, List,
  [], ◌∷◌, ◌∙◌, if◌then◌else◌,
}
use mathlib.Core.Option.{some-injective}
use soro_lend.Text.{Text, codes}
use soro_lend.Runtime.{Number}
use soro_lend.Frontend.Models.{Proposal}
use soro_lend.Frontend.Actions.{
  Action, Kind, Transaction, supply, withdraw, borrow, repay, deposit_collateral,
  withdraw_collateral, submit_transaction,
}
use soro_lend.Frontend.Reducers.{Storage, State}
use soro_lend.Frontend.Effects.{Loaded, completed, portfolio_answer}
use soro_lend.Frontend.Selectors.{select_wallet_address}
use soro_lend.Frontend.Session.{Session, dispatch, deliver}
use soro_lend.Frontend.Components.{connect, vote, short_address}
use soro_lend.Frontend.Forms.{Form, is_invalid, submit}
use soro_lend.Frontend.Html.{Press, submits, votes, connects, Button, buttons}
use soro_lend.Frontend.Pages.{Pipes}
use soro_lend.Frontend.Pages.Buttons.{intended, is_held, ballot_buttons, buttons-page_of}
use soro_lend.Frontend.Pages.Layout.{
  Page, dashboard, lending, borrowing, collateral, portfolio, governance, page_of,
}

abbrev pub All : (Button → Type 0) → List Button → Type 0
All P [] = Unit
All P (b ∷ bs) = P b × All P bs

abbrev is_submit : Press → Bool
is_submit (submits kind) = true
is_submit _ = false

All-ballots :
    (P : Button → Type 0)
    → ((id : Text) (support : Bool) (label : Text)
        → P (record { disabled = false; press = votes id support; label = label }))
    → (ps : List Proposal) → All P (ballot_buttons ps)
All-ballots P ballots [] = tt
All-ballots P ballots (p ∷ ps) =
    (ballots p.id true _, (ballots p.id false _, All-ballots P ballots ps))

All-get :
    (P : Button → Type 0) (bs : List Button) (i : ℕ) {b : Button}
    → All P bs
    → get_elem? bs i ≡ some b
    → P b
All-get P [] i h e = cc
All-get P (x ∷ xs) zero {b} h e = rw (some-injective x b e) at h.0
All-get P (x ∷ xs) (suc i) h e = All-get P xs i h.1 e

module _ {N : Number} where
  abbrev pub dispatched : Option (Action N) → List (Action N)
  dispatched none = []
  dispatched (some a) = a ∷ []

  -- What the handler of a button dispatches, in a state of the store and with a form.
  unfoldable pub click : Press → State N → Form → List (Action N)
  unfolding submit vote
  click (submits kind) s f = dispatched (submit kind (select_wallet_address s) f)
  click (votes id support) s f = vote (select_wallet_address s) id support
  click connects s f = connect ∷ []

  -- The button of the header.
  abbrev pub wallet_button : State N → Button
  wallet_button s = record {
    disabled = s.auth.loading;
    press = connects;
    label = if s.auth.connected then short_address s.auth.address else codes "Connect Freighter";
  }

  module _ (pipes : Pipes N) where
    -- What holds of the buttons of every form, and does not speak of the others, holds of a page's.
    All-intended :
        (P : Button → Type 0) (s : State N) (f : Form)
        → ((kind : Kind) (label : Text)
            → P (record { disabled = is_held s f; press = submits kind; label = label }))
        → ((id : Text) (support : Bool) (label : Text)
            → P (record { disabled = false; press = votes id support; label = label }))
        → (g : Page) → All P (intended g s f)
    All-intended P s f forms ballots lending = (forms supply _, (forms withdraw _, tt))
    All-intended P s f forms ballots borrowing = (forms borrow _, (forms repay _, tt))
    All-intended P s f forms ballots collateral =
        (forms deposit_collateral _, (forms withdraw_collateral _, tt))
    All-intended P s f forms ballots dashboard = tt
    All-intended P s f forms ballots portfolio = tt
    All-intended P s f forms ballots governance = All-ballots P ballots s.governance.proposals

    on_page :
        (P : Button → Type 0) (g : Page) (s : State N) (f : Form) (i : ℕ) {b : Button}
        → All P (intended g s f)
        → get_elem? (buttons (page_of pipes g s f)) i ≡ some b
        → P b
    on_page P g s f i all found =
        All-get P (intended g s f) i all (rw (buttons-page_of pipes g s f) at found)

    -- A button that sends a transaction is disabled exactly while the form is invalid or a
    -- transaction is shown as pending.
    held :
        (g : Page) (s : State N) (f : Form) (i : ℕ) {b : Button} {kind : Kind}
        → get_elem? (buttons (page_of pipes g s f)) i ≡ some b
        → b.press ≡ submits kind
        → b.disabled ≡ is_held s f
    held g s f i {b} {kind} found pressed =
        on_page (λ b. is_submit b.press ≡ true → b.disabled ≡ is_held s f) g s f i
          (All-intended _ s f (λ kind label h. refl) (λ id support label h. cc) g) found
          (rw pressed refl)

    either_false : (x y : Bool) → (x || y) ≡ false → x ≡ false
    either_false x y h = ground arith

    either_true : (x : Bool) → (x || true) ≡ true
    either_true x = ground arith

    -- Where a wallet is connected, a click on a button that sends a transaction, if the button is
    -- enabled, dispatches one action: a transaction of the button's kind, from the wallet's address,
    -- with the asset and the amount of the form.
    pub click-submits :
        (g : Page) (s : State N) (f : Form) (i : ℕ) {b : Button} {kind : Kind} {c : ℕ} {a : Text}
        → s.auth.address ≡ some (c ∷ a)
        → get_elem? (buttons (page_of pipes g s f)) i ≡ some b
        → b.press ≡ submits kind
        → b.disabled ≡ false
        → click b.press s f
          ≡ submit_transaction (record {
            kind = kind;
            address = c ∷ a;
            asset_code = f.asset_code;
            amount = f.amount;
          })
            ∷ []
    unfolding click
    click-submits g s f i {b} {kind} {c} {a} wallet found pressed enabled =
        let valid =
          either_false (is_invalid f) s.portfolio.transaction_pending
            (sym (held g s f i found pressed) ∙ enabled) in
        rw (pressed, wallet, valid) refl

    -- Once a transaction is dispatched, every button that sends one is disabled, on every page and
    -- whatever the forms hold.
    pub dispatch-disables :
        (storage : Storage) (session : Session N) (t : Transaction) (g : Page) (f : Form) (i : ℕ)
        {b : Button} {kind : Kind}
        → get_elem?
            (buttons (page_of pipes g (dispatch storage (submit_transaction t) session).state f))
            i
          ≡ some b
        → b.press ≡ submits kind
        → b.disabled ≡ true
    unfolding dispatch
    dispatch-disables storage session t g f i {b} {kind} found pressed =
        held g (dispatch storage (submit_transaction t) session).state f i found pressed
        ∙ either_true (is_invalid f)

    -- Where a transaction is in flight, the form is valid and a wallet is connected, and a portfolio
    -- is loaded: the buttons that send transactions are enabled, and a click on one replaces the
    -- transaction in flight by another, so that the answer to the first is dropped.
    pub click-replaces :
        (storage : Storage) (session : Session N) (l : Loaded N) (g : Page) (f : Form) (i : ℕ)
        {first : Transaction} {b : Button} {kind : Kind} {c : ℕ} {a : Text}
        → session.requests.transaction ≡ some first
        → is_invalid f ≡ false
        → session.state.auth.address ≡ some (c ∷ a)
        → let loaded = deliver storage (portfolio_answer (completed l)) session in
          let second : Transaction = record {
            kind = kind;
            address = c ∷ a;
            asset_code = f.asset_code;
            amount = f.amount;
          } in
          get_elem? (buttons (page_of pipes g loaded.state f)) i ≡ some b
          → b.press ≡ submits kind
          → (b.disabled ≡ false)
            × (loaded.requests.transaction ≡ some first)
            × (click b.press loaded.state f ≡ submit_transaction second ∷ [])
            × ((dispatch storage (submit_transaction second) loaded).requests.transaction
                ≡ some second)
    unfolding dispatch deliver
    click-replaces storage session l g f i waiting valid wallet found pressed =
        let loaded = deliver storage (portfolio_answer (completed l)) session in
        let enabled = held g loaded.state f i found pressed ∙ rw valid refl in
        (enabled, waiting, click-submits g loaded.state f i wallet found pressed enabled, refl)
