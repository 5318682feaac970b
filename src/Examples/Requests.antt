-- ===== src/Examples/Requests.antt =====
-- Requests to the server, and the reconnection of Redis.
use soro_lend.Prelude.{◌≡◌, refl, Bool, true, false, ◌&&◌, none, some, [], if◌then◌else◌}
use soro_lend.Text.{codes, text_eq}
use soro_lend.Text.Decimal.{bigint}
use soro_lend.Runtime.{
  Error, not_found, bad_request, unauthorized, plain, syntax_error, rejected, err,
}
use soro_lend.Store.{active_asset}
use soro_lend.Lending
use soro_lend.Analytics
use soro_lend.Examples.World.{World, start, supply_of_alice, debt_of_alice, collateral_of_alice}
use soro_lend.Examples.Services.{cell, settings}
use soro_lend.Http.Filter.{Exception, http, native, message}
use soro_lend.Http.Filter.Statuses.{NestLaws, refused, missing_asset}
use soro_lend.Http.Controllers.{
  Request, Outside, PositionDto, lending, borrowing, LendingRequest, BorrowingRequest, serve,
  serve_lending,
}
use soro_lend.Http.Controllers.Reads.{serve_get}
use soro_lend.Http.Controllers.Frame.{KeepsMarkets, KeepsPositions}
use soro_lend.Http.Controllers.Failures.{serve_fails, serve-KeepsMarkets}
use soro_lend.Http.Controllers.Solvency.{Solvent}
use soro_lend.Store.Natural.{natural_or_none}
use soro_lend.Store.Positions.{reading}
use soro_lend.Lending.Ledger.{supply_positions}
use soro_lend.Borrowing.Debts.{borrow_positions}
use soro_lend.Collateral.Balances.{collateral_positions}

abbrev pub noon : Outside
noon = record { now = 5; nonce = codes "n"; is_positive = λ t. true; date_of = λ t. 0 }

abbrev health_of_alice : Request
health_of_alice = borrowing (BorrowingRequest.get_health (codes "GA"))

serve_get_example :
    (serve cell settings (λ k. k) World noon health_of_alice (start, none)).1 ≡ (start, none)
serve_get_example = serve_get cell settings (λ k. k) World noon health_of_alice start none refl

-- More than alice has supplied.
abbrev pub sixty : PositionDto
sixty = record { public_key = codes "GA"; asset_code = codes "XLM"; amount = codes "60" }

abbrev pub too_much : Request
too_much = lending (LendingRequest.withdraw sixty)

serve-KeepsMarkets_example :
    KeepsMarkets World start (serve cell settings (λ k. k) World noon too_much (start, none)).1.0
serve-KeepsMarkets_example =
    serve-KeepsMarkets cell settings (λ k. k) World noon start none too_much

sixty_refused :
    (serve cell settings (λ k. k) World noon too_much (start, none)).0
    ≡ err (bad_request (codes "Insufficient supply balance"))
unfolding serve serve_lending Lending.withdraw text_eq bigint
sixty_refused = refl

serve_fails_example :
    KeepsPositions World start (serve cell settings (λ k. k) World noon too_much (start, none)).1.0
serve_fails_example =
    serve_fails cell settings (λ k. k) World noon start none too_much sixty_refused

abbrev exception_of : Error → Exception
exception_of (not_found t) = http 404 t (message t)
exception_of (bad_request t) = http 400 t (message t)
exception_of (unauthorized t) = http 401 t (message t)
exception_of (plain t) = native t
exception_of syntax_error = native (codes "Cannot convert to a BigInt")
exception_of rejected = native (codes "rejected")

nest_laws : NestLaws exception_of
nest_laws = record {
  not_found_is = λ t. refl;
  bad_request_is = λ t. refl;
  unauthorized_is = λ t. refl;
  plain_is = λ t. refl;
  syntax_error_is = (codes "Cannot convert to a BigInt", refl);
  rejected_is = (codes "rejected", refl);
}

no_eth : active_asset World (codes "ETH") start ≡ none
unfolding text_eq
no_eth = refl

missing_asset_example :
    (refused exception_of (codes "noon") [] (Lending.get_market World (codes "ETH") start).0
      ≡ some 404)
    × (refused exception_of
          (codes "noon")
          []
          (Lending.supply World (codes "GA") (codes "ETH") (codes "1") start).0
        ≡ some 404)
    × (refused exception_of
          (codes "noon")
          []
          (Lending.withdraw World (codes "GA") (codes "ETH") (codes "1") start).0
        ≡ some 404)
    × (refused exception_of
          (codes "noon")
          []
          (Analytics.get_tvl_by_asset World (codes "ETH") start).0
        ≡ some 500)
missing_asset_example =
    missing_asset exception_of nest_laws (codes "noon") [] World (codes "ETH") (codes "GA")
      (codes "1") start no_eth

one_supply :
    (b : Bool)
    → natural_or_none
        (reading (supply_positions World bigint) (if b then some supply_of_alice else none))
      ≡ true
unfolding bigint
one_supply true = refl
one_supply false = refl

one_debt :
    (b : Bool)
    → natural_or_none
        (reading (borrow_positions World bigint) (if b then some debt_of_alice else none))
      ≡ true
unfolding bigint
one_debt true = refl
one_debt false = refl

one_collateral :
    (b : Bool)
    → natural_or_none
        (reading (collateral_positions World bigint) (if b then some collateral_of_alice else none))
      ≡ true
unfolding bigint
one_collateral true = refl
one_collateral false = refl

pub start-Solvent : Solvent World bigint start
start-Solvent = record {
  supplies = λ u a. one_supply (text_eq (codes "u1") u && text_eq (codes "a1") a);
  debts = λ u a. one_debt (text_eq (codes "u1") u && text_eq (codes "a2") a);
  collaterals = λ u a. one_collateral (text_eq (codes "u1") u && text_eq (codes "a1") a);
}
