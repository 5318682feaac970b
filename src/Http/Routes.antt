-- ===== src/Http/Routes.antt =====
-- The POST routes of the controllers that the client calls (backend/src, the `*.controller.ts` files and
-- `setGlobalPrefix` of main.ts), from the address of a call to the request. A body has passed the
-- checks of `Requests`.
use soro_lend.Prelude.{◌≡◌, refl, ◌==◌, Option, none, some, [], ◌∷◌, ◌++◌, if◌then◌else◌, arith}
use soro_lend.Text.{Text, codes, text_eq}
use soro_lend.Http.{Json, text, Fields, lookup}
use soro_lend.Http.Controllers.{
  PositionDto, LendingRequest, BorrowingRequest, CollateralRequest, challenge, verify, Request,
  lending, borrowing, collateral, auth,
}

-- `app.setGlobalPrefix('api/v1')`
abbrev pub with_prefix : Text → Text
with_prefix origin = origin ++ codes "/api/v1"

-- What is left of a text after a prefix, if it has the prefix.
unfoldable pub after_prefix : Text → Text → Option Text
after_prefix [] t = some t
after_prefix (c ∷ s) [] = none
after_prefix (c ∷ s) (d ∷ t) = let rest = after_prefix s t in if c == d then rest else none

-- A member that the checks have found to be a text.
abbrev text_of : Option Json → Text
text_of (some (text t)) = t
text_of _ = []

abbrev position_dto : Fields → PositionDto
position_dto body = record {
  public_key = text_of (lookup (codes "publicKey") body);
  asset_code = text_of (lookup (codes "assetCode") body);
  amount = text_of (lookup (codes "amount") body);
}

-- The methods with `@Post`, by their path below the prefix: those of LendingController,
-- BorrowingController, CollateralController and AuthController.
abbrev pub lending_post : Text → PositionDto → Option Request
lending_post path dto =
    if text_eq path (codes "/supply")
    then some (lending (LendingRequest.supply dto))
    else if text_eq path (codes "/withdraw")
    then some (lending (LendingRequest.withdraw dto))
    else none

abbrev pub borrowing_post : Text → PositionDto → Option Request
borrowing_post path dto =
    if text_eq path (codes "/borrow")
    then some (borrowing (BorrowingRequest.borrow dto))
    else if text_eq path (codes "/repay")
    then some (borrowing (BorrowingRequest.repay dto))
    else none

abbrev pub collateral_post : Text → PositionDto → Option Request
collateral_post path dto =
    if text_eq path (codes "/collateral/deposit")
    then some (collateral (CollateralRequest.deposit dto))
    else if text_eq path (codes "/collateral/withdraw")
    then some (collateral (CollateralRequest.withdraw dto))
    else none

abbrev pub auth_post : Text → Text → Text → Option Request
auth_post path public_key signature =
    if text_eq path (codes "/auth/challenge")
    then some (auth (challenge public_key))
    else if text_eq path (codes "/auth/verify")
    then some (auth (verify public_key signature))
    else none

abbrev or_next : Option Request → Option Request → Option Request
or_next none next = next
or_next (some r) next = some r

unfoldable pub post_route : Text → Fields → Option Request
post_route path body = or_next (lending_post path (position_dto body)) (
    or_next (borrowing_post path (position_dto body)) (
      or_next (collateral_post path (position_dto body)) (
        auth_post path (text_of (lookup (codes "publicKey") body))
          (text_of (lookup (codes "signature") body)))))

abbrev below_prefix : Option Text → Fields → Option Request
below_prefix none body = none
below_prefix (some path) body = post_route path body

-- The request that a call of the server at `origin` is, if it meets one of these routes.
unfoldable pub post_request : Text → Text → Fields → Option Request
unfolding after_prefix post_route
post_request origin url body = below_prefix (after_prefix (with_prefix origin) url) body

after_prefix-append : (s t : Text) → after_prefix s (s ++ t) ≡ some t
unfolding after_prefix
after_prefix-append [] t = refl
after_prefix-append (c ∷ s) t = ground (arith, after_prefix-append s t)

after_prefix-both : (s t u : Text) → after_prefix (s ++ t) (s ++ u) ≡ after_prefix t u
unfolding after_prefix
after_prefix-both [] t u = refl
after_prefix-both (c ∷ s) t u = ground (arith, after_prefix-both s t u)

-- A call below the prefix meets the route of the rest.
pub post_request-with_prefix :
    (origin path : Text) (body : Fields)
    → post_request origin (with_prefix origin ++ path) body ≡ post_route path body
unfolding post_request
post_request-with_prefix origin path body = rw (after_prefix-append (with_prefix origin) path) refl

-- A call at the origin meets none, unless it has the prefix.
pub post_request-origin :
    (origin path : Text) (body : Fields)
    → after_prefix (codes "/api/v1") path ≡ none
    → post_request origin (origin ++ path) body ≡ none
unfolding post_request
post_request-origin origin path body h =
    rw (after_prefix-both origin (codes "/api/v1") path, h) refl
