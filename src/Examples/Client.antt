-- ===== src/Examples/Client.antt =====
-- The client: sessions, forms, the badge and the login.
use soro_lend.Prelude.{ℕ, ◌≡◌, refl, true, not, none, some, [], if◌then◌else◌}
use soro_lend.Text.{codes, text_eq}
use soro_lend.Text.Decimal.{bigint}
use soro_lend.Text.Decimal.Points.{is_read, has_point}
use soro_lend.Runtime.{Result, ok, err, syntax_error}
use soro_lend.Store.{supply_of}
use soro_lend.Lending
use soro_lend.Examples.World.{hundredths, World, start, supply_of_alice, xlm_found, alice_found}
use soro_lend.Examples.Services.{cell}
use soro_lend.Http.{Json, null}
use soro_lend.Http.Controllers.{Outside, Request}
use soro_lend.Frontend.Actions.{supply, Transaction, submit_transaction, load_markets}
use soro_lend.Frontend.Reducers.{Storage}
use soro_lend.Frontend.Effects.{
  Requests, is_some, Answer, answered, closed, failed, connect_answer, login_answer, markets_answer,
  portfolio_answer, transaction_answer, proposals_answer, vote_answer, power_answer,
}
use soro_lend.Frontend.Session
use soro_lend.Frontend.Session.{Session, dispatch, deliver, Reachable, loaded, further, outer}
use soro_lend.Frontend.Session.Invariant.{Inv, Reachable-Inv}
use soro_lend.Frontend.Session.Steps.{Point}
use soro_lend.Frontend.Forms.{submit, amount_pattern}
use soro_lend.Frontend.Forms.Amounts.{amount_pattern-bigint}
use soro_lend.Frontend.Forms.Submissions.{submit_decimal}
use soro_lend.Frontend.Wallet.{FreighterApi}
use soro_lend.Frontend.Login.{login}
use soro_lend.Frontend.Login.Wrapped.{Moment}
use soro_lend.Frontend.Api.{api_url, transaction_call}
use soro_lend.Http.Routes.{with_prefix}
use soro_lend.Frontend.Api.Contract.{
  body_names, declared, schema_of, received, request_of, transaction_call-received,
}

abbrev page : Storage
page = record { address = none; jwt = none }

abbrev opening : Session hundredths
opening = Session.start page

-- The markets are asked for.
abbrev asking : Session hundredths
asking = dispatch page load_markets opening

asking-Reachable : Reachable page asking
asking-Reachable = further loaded (outer load_markets opening refl)

Reachable-Inv_example : Inv asking
Reachable-Inv_example = Reachable-Inv page asking-Reachable

abbrev no_markets : Answer hundredths
no_markets = markets_answer (failed (codes "offline"))

abbrev answered_point : Point hundredths
answered_point = record {
  next = some (answered asking.requests no_markets);
  session = record asking { requests = closed asking.requests no_markets };
}

-- Every request fails, the wallet's first.
abbrev fail_first : Requests → Answer hundredths
fail_first r =
    if r.connect
    then connect_answer (failed [])
    else if is_some r.login
    then login_answer (failed [])
    else if r.markets
    then markets_answer (failed [])
    else if is_some r.portfolio
    then portfolio_answer (failed [])
    else if is_some r.transaction
    then transaction_answer (failed [])
    else if r.proposals
    then proposals_answer (failed [])
    else if is_some r.vote
    then vote_answer (failed [])
    else power_answer (failed [])

twelve_and_a_half : amount_pattern (codes "12.5") ≡ true
unfolding amount_pattern
twelve_and_a_half = refl

amount_pattern-bigint_example : is_read (bigint (codes "12.5")) ≡ not (has_point (codes "12.5"))
amount_pattern-bigint_example = amount_pattern-bigint (codes "12.5") twelve_and_a_half

abbrev half : Transaction
half = record {
  kind = supply;
  address = codes "GA";
  asset_code = codes "XLM";
  amount = codes "0.5";
}

half_submitted :
    submit {N = hundredths} supply
      (some (codes "GA"))
      (record { asset_code = codes "XLM"; amount = codes "0.5" })
    ≡ some (submit_transaction half)
unfolding submit
half_submitted = refl

alice_supplies : supply_of World (codes "u1") (codes "a1") start ≡ some supply_of_alice
unfolding text_eq
alice_supplies = refl

submit_decimal_example :
    (Lending.supply World (codes "GA") (codes "XLM") (codes "0.5") start
      ≡ (err syntax_error, start))
    × (Lending.withdraw World (codes "GA") (codes "XLM") (codes "0.5") start
        ≡ (err syntax_error, start))
submit_decimal_example =
    submit_decimal supply (some (codes "GA"))
      (record { asset_code = codes "XLM"; amount = codes "0.5" }) World start half_submitted refl
      xlm_found alice_found alice_supplies

transaction_call-received_example :
    (received api_url (transaction_call (with_prefix api_url) half) ≡ some (request_of half))
    × (body_names (transaction_call (with_prefix api_url) half) ≡ declared (schema_of supply))
    × (received api_url (transaction_call api_url half) ≡ none)
transaction_call-received_example =
    transaction_call-received api_url supply (codes "GA") (codes "XLM") (codes "0.5")

abbrev wallet : FreighterApi
wallet = record {
  is_connected = ok true;
  get_public_key = ok (codes "GA");
  sign_message = some (λ t. ok (codes "signed"));
  sign_transaction = none;
}

abbrev at : ℕ → Outside
at now = record { now = now; nonce = codes "n"; is_positive = λ t. true; date_of = λ t. 0 }

abbrev moment : Moment cell
moment = record { cache = none; time = at 5; later = at 6 }

abbrev elsewhere : Request → Moment cell → Result Json × Moment cell
elsewhere r m = (ok null, m)
