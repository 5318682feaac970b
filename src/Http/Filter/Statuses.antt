-- ===== src/Http/Filter/Statuses.antt =====
-- Which status a failed call is answered with.
use soro_lend.Prelude.{ℕ, Option, none, some, ◌++◌, ◌≡◌, arith}
use soro_lend.Text.{Text, codes}
use soro_lend.Runtime.{
  Error, Result, ok, err, not_found, bad_request, unauthorized, plain, syntax_error, rejected,
}
use soro_lend.Store.{Env, Db, active_asset}
use soro_lend.Lending
use soro_lend.Analytics
use soro_lend.Http.Filter.{Exception, http, native, message, catch}

-- What NestJS documents: `new NotFoundException(text)` and its like have a status, the text for their
-- message and a response with that message. The other two are errors of the language and of the
-- driver, which are no HttpExceptions; their messages are not said.
pub record NestLaws (exception_of : Error → Exception) : Type 0 where
  pub not_found_is : (t : Text) → exception_of (not_found t) ≡ http 404 t (message t)
  pub bad_request_is : (t : Text) → exception_of (bad_request t) ≡ http 400 t (message t)
  pub unauthorized_is : (t : Text) → exception_of (unauthorized t) ≡ http 401 t (message t)
  pub plain_is : (t : Text) → exception_of (plain t) ≡ native t
  pub syntax_error_is : (t : Text) × (exception_of syntax_error ≡ native t)
  pub rejected_is : (t : Text) × (exception_of rejected ≡ native t)

-- The statuses of the errors of the services.
abbrev pub status_of : Error → ℕ
status_of (not_found t) = 404
status_of (bad_request t) = 400
status_of (unauthorized t) = 401
status_of _ = 500

-- The status of a refusal; none is a success.
abbrev pub refused : {A : Type 0} → (Error → Exception) → Text → Text → Result A → Option ℕ
refused exception_of timestamp path (ok a) = none
refused exception_of timestamp path (err e) =
    some (catch timestamp path (exception_of e)).status_code

module _ (exception_of : Error → Exception) (laws : NestLaws exception_of)
    (timestamp path : Text) where
  pub catch-status_of :
      (e : Error) → (catch timestamp path (exception_of e)).status_code ≡ status_of e
  unfolding catch
  catch-status_of (not_found t) = rw (laws.not_found_is t)
  catch-status_of (bad_request t) = rw (laws.bad_request_is t)
  catch-status_of (unauthorized t) = rw (laws.unauthorized_is t)
  catch-status_of (plain t) = rw (laws.plain_is t)
  catch-status_of syntax_error = rw laws.syntax_error_is.1
  catch-status_of rejected = rw laws.rejected_is.1

  refused-err :
      {A : Type 0} (r : Result A) {e : Error}
      → r ≡ err e
      → refused exception_of timestamp path r ≡ some (status_of e)
  refused-err (ok a) h = cc
  refused-err (err e) h = ground (arith, catch-status_of e)

  -- Where NestJS's exceptions are as documented, an asset that is not there is a 404 to the controllers
  -- of lending, and to a supply and a withdrawal, and a 500 to the one of analytics.
  pub missing_asset :
      (E : Env) (code : Text) (key amount : Text) (db : Db E)
      → active_asset E code db ≡ none
      → (refused exception_of timestamp path (Lending.get_market E code db).0 ≡ some 404)
        × (refused exception_of timestamp path (Lending.supply E key code amount db).0 ≡ some 404)
        × (refused exception_of timestamp path (Lending.withdraw E key code amount db).0 ≡ some 404)
        × (refused exception_of timestamp path (Analytics.get_tvl_by_asset E code db).0 ≡ some 500)
  unfolding Lending.get_market Lending.supply Lending.withdraw Analytics.get_tvl_by_asset
  missing_asset E code key amount db h = (
    refused-err (Lending.get_market E code db).0
        {e = not_found (codes "Market not found for asset: " ++ code)} (ground arith),
    refused-err (Lending.supply E key code amount db).0
        {e = not_found (codes "Asset not found: " ++ code)} (ground arith),
    refused-err (Lending.withdraw E key code amount db).0
        {e = not_found (codes "Asset not found: " ++ code)} (ground arith),
    refused-err (Analytics.get_tvl_by_asset E code db).0
        {e = plain (codes "Asset not found: " ++ code)} (ground arith),
  )
