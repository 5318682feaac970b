-- ===== src/Frontend/Api/Contract.antt =====
-- The calls of the client, against the routes and the request types of the server.
use soro_lend.Prelude.{Option, none, some, ◌≡◌, refl, true, false, List, [], ◌∷◌}
use soro_lend.Text.{Text, codes, is_among, text_eq}
use soro_lend.Http.{Fields, with, no_fields}
use soro_lend.Http.Requests.{
  Schema, supply_dto, withdraw_dto, borrow_dto, repay_dto, deposit_collateral_dto,
  withdraw_collateral_dto, vote_dto,
}
use soro_lend.Frontend.Actions.{
  Kind, supply, withdraw, borrow, repay, deposit_collateral, withdraw_collateral, Ballot,
  Transaction,
}
use soro_lend.Frontend.Api.{Call, get, post, position_body, transaction_call, vote_call}
use soro_lend.Http.Controllers.{
  PositionDto, Request, LendingRequest, BorrowingRequest, CollateralRequest, lending, borrowing,
  collateral,
}
use soro_lend.Http.Routes.{
  with_prefix, after_prefix, post_route, post_request, post_request-with_prefix,
  post_request-origin,
}

abbrev pub field_names : Fields → List Text
field_names no_fields = []
field_names (with name value rest) = name ∷ field_names rest

abbrev pub body_names : Call → List Text
body_names (get path) = []
body_names (post path body) = field_names body

abbrev pub declared : Schema → List Text
declared [] = []
declared ((name, checks) ∷ rest) = name ∷ declared rest

-- The body of the route that a transaction is sent to.
abbrev pub schema_of : Kind → Schema
schema_of supply = supply_dto
schema_of withdraw = withdraw_dto
schema_of borrow = borrow_dto
schema_of repay = repay_dto
schema_of deposit_collateral = deposit_collateral_dto
schema_of withdraw_collateral = withdraw_collateral_dto

-- The request that a transaction is meant to be.
abbrev pub request_of : Transaction → Request
request_of t =
    let dto : PositionDto = record {
      public_key = t.address;
      asset_code = t.asset_code;
      amount = t.amount;
    } in
    elim t.kind [
      | supply ↦ lending (LendingRequest.supply dto)
      | withdraw ↦ lending (LendingRequest.withdraw dto)
      | borrow ↦ borrowing (BorrowingRequest.borrow dto)
      | repay ↦ borrowing (BorrowingRequest.repay dto)
      | deposit_collateral ↦ collateral (CollateralRequest.deposit dto)
      | withdraw_collateral ↦ collateral (CollateralRequest.withdraw dto)
    ]

-- The request that a call of the client is to the server at `origin`.
abbrev pub received : Text → Call → Option Request
received origin (get url) = none
received origin (post url body) = post_request origin url body

-- A transaction of any kind, sent by a client whose `apiUrl` is the origin of the server with the
-- prefix, meets the route of its kind, with its address, asset and amount, and is sent with the fields
-- that the request type of the route declares, all of them and no other. Sent with the origin alone,
-- as `apiUrl` has it, it meets none.
pub transaction_call-received :
    (origin : Text) (kind : Kind) (address asset_code amount : Text)
    → let t : Transaction = record {
      kind = kind;
      address = address;
      asset_code = asset_code;
      amount = amount;
    } in
      (received origin (transaction_call (with_prefix origin) t) ≡ some (request_of t))
      × (body_names (transaction_call (with_prefix origin) t) ≡ declared (schema_of kind))
      × (received origin (transaction_call origin t) ≡ none)
unfolding transaction_call post_route after_prefix text_eq
transaction_call-received origin supply address asset_code amount =
    let body = position_body address asset_code amount in
    (
      post_request-with_prefix origin (codes "/supply") body,
      refl,
      post_request-origin origin (codes "/supply") body refl,
    )
transaction_call-received origin withdraw address asset_code amount =
    let body = position_body address asset_code amount in
    (
      post_request-with_prefix origin (codes "/withdraw") body,
      refl,
      post_request-origin origin (codes "/withdraw") body refl,
    )
transaction_call-received origin borrow address asset_code amount =
    let body = position_body address asset_code amount in
    (
      post_request-with_prefix origin (codes "/borrow") body,
      refl,
      post_request-origin origin (codes "/borrow") body refl,
    )
transaction_call-received origin repay address asset_code amount =
    let body = position_body address asset_code amount in
    (
      post_request-with_prefix origin (codes "/repay") body,
      refl,
      post_request-origin origin (codes "/repay") body refl,
    )
transaction_call-received origin deposit_collateral address asset_code amount =
    let body = position_body address asset_code amount in
    (
      post_request-with_prefix origin (codes "/collateral/deposit") body,
      refl,
      post_request-origin origin (codes "/collateral/deposit") body refl,
    )
transaction_call-received origin withdraw_collateral address asset_code amount =
    let body = position_body address asset_code amount in
    (
      post_request-with_prefix origin (codes "/collateral/withdraw") body,
      refl,
      post_request-origin origin (codes "/collateral/withdraw") body refl,
    )

-- A vote is sent with a field that the request type of votes does not declare, and without the field
-- that says which vote it is.
pub vote_call-undeclared :
    (base : Text) (b : Ballot)
    → (is_among (codes "support") (body_names (vote_call base b)) ≡ true)
      × (is_among (codes "support") (declared vote_dto) ≡ false)
      × (is_among (codes "vote") (declared vote_dto) ≡ true)
      × (is_among (codes "vote") (body_names (vote_call base b)) ≡ false)
unfolding is_among
vote_call-undeclared base b = (refl, refl, refl, refl)
