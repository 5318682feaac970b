-- ===== src/Examples/Screens.antt =====
-- The pages of the client on a small state.
use soro_lend.Prelude.{◌≡◌, refl, ap, false, true, some, none, [], ◌∷◌, get_elem?}
use soro_lend.Text.{codes}
use soro_lend.Examples.World.{hundredths}
use soro_lend.Frontend.Actions.{supply, withdraw, Transaction, submit_transaction}
use soro_lend.Frontend.Reducers.{Storage}
use soro_lend.Frontend.Effects.{Loaded, completed, portfolio_answer}
use soro_lend.Frontend.Reducers.{empty_collateral}
use soro_lend.Frontend.Session
use soro_lend.Frontend.Session.{Session, dispatch, deliver}
use soro_lend.Frontend.Forms.{Form, is_invalid, amount_pattern}
use soro_lend.Frontend.Html.{Button, submits, buttons}
use soro_lend.Frontend.Pages.{Pipes}
use soro_lend.Frontend.Pages.Layout.{lending, page_of}
use soro_lend.Frontend.Pages.Buttons.{buttons-page_of}
use soro_lend.Frontend.Pages.Clicks.{click, click-submits, dispatch-disables, click-replaces}

abbrev texts : Pipes hundredths
texts = record { currency = λ x. []; percent = λ x. []; decimal = λ t. t; price = λ t. t }

-- The page is loaded with a wallet in the storage.
abbrev stored : Storage
stored = record { address = some (codes "GA"); jwt = none }

abbrev visit : Session hundredths
visit = Session.start stored

abbrev five : Form
five = record { asset_code = codes "XLM"; amount = codes "5" }

five_valid : is_invalid five ≡ false
unfolding amount_pattern
five_valid = refl

abbrev five_supplied : Transaction
five_supplied = record {
  kind = supply;
  address = codes "GA";
  asset_code = codes "XLM";
  amount = codes "5";
}

abbrev supply_button : Button
supply_button = record { disabled = false; press = submits supply; label = codes "Supply" }

supply_enabled : get_elem? (buttons (page_of texts lending visit.state five)) 0 ≡ some supply_button
unfolding amount_pattern
supply_enabled = ap (λ bs. get_elem? bs 0) (buttons-page_of texts lending visit.state five)

click-submits_example :
    click supply_button.press visit.state five ≡ submit_transaction five_supplied ∷ []
click-submits_example = click-submits texts lending visit.state five 0 refl supply_enabled refl refl

abbrev sent : Session hundredths
sent = dispatch stored (submit_transaction five_supplied) visit

abbrev held_button : Button
held_button = record { disabled = true; press = submits withdraw; label = codes "Withdraw" }

withdraw_held : get_elem? (buttons (page_of texts lending sent.state five)) 1 ≡ some held_button
unfolding amount_pattern dispatch
withdraw_held = ap (λ bs. get_elem? bs 1) (buttons-page_of texts lending sent.state five)

dispatch-disables_example : held_button.disabled ≡ true
dispatch-disables_example =
    dispatch-disables texts stored visit five_supplied lending five 1 withdraw_held refl

abbrev nothing : Loaded hundredths
nothing = record {
  supply = [];
  borrow = [];
  collateral = empty_collateral hundredths;
  health_factor = none;
  available_borrow_usd = none;
  stats = none;
}

abbrev reloaded : Session hundredths
reloaded = deliver stored (portfolio_answer (completed nothing)) sent

sent_waits : sent.requests.transaction ≡ some five_supplied
unfolding dispatch
sent_waits = refl

sent_wallet : sent.state.auth.address ≡ some (codes "GA")
unfolding dispatch
sent_wallet = refl

supply_again :
    get_elem? (buttons (page_of texts lending reloaded.state five)) 0 ≡ some supply_button
unfolding amount_pattern deliver
supply_again = ap (λ bs. get_elem? bs 0) (buttons-page_of texts lending reloaded.state five)

click-replaces_example :
    (supply_button.disabled ≡ false)
    × (reloaded.requests.transaction ≡ some five_supplied)
    × (click supply_button.press reloaded.state five ≡ submit_transaction five_supplied ∷ [])
    × ((dispatch stored (submit_transaction five_supplied) reloaded).requests.transaction
        ≡ some five_supplied)
click-replaces_example =
    click-replaces texts stored sent nothing lending five 0 sent_waits five_valid sent_wallet
      supply_again refl
