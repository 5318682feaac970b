-- ===== src/Frontend/Login.antt =====
-- AuthService of the client (frontend/src/app/core/services/auth.service.ts). A server is a parameter:
-- what it answers to a POST request, and its state after.
pub mod Wrapped
use soro_lend.Prelude.{◌++◌, Option, none, some, []}
use soro_lend.Text.{Text, codes}
use soro_lend.Runtime.{Error, plain, Result, ok, err}
use soro_lend.Http.{
  Json, Fields, null, text, boolean, number, array, object, with, no_fields, member,
}
use soro_lend.Frontend.Wallet.{FreighterApi, sign_message}

pub record Server : Type 1 where
  pub State : Type 0
  pub post : Text → Fields → State → Result Json × State

-- `a ?? b`, on members that the interfaces declare as texts: null counts as missing.
abbrev pub text_or : Option Json → Text → Text
text_or (some (text t)) b = t
text_or _ b = b

-- `challenge.challenge ?? challenge.message ?? challenge.nonce ?? ''`
abbrev pub message_of : Json → Text
message_of r =
    text_or (member (codes "challenge") r)
      (text_or (member (codes "message") r) (text_or (member (codes "nonce") r) []))

-- `response.accessToken ?? response.token ?? response.jwt ?? ''`
abbrev pub token_of : Json → Text
token_of r =
    text_or (member (codes "accessToken") r)
      (text_or (member (codes "token") r) (text_or (member (codes "jwt") r) []))

-- `base` is `environment.apiUrl`.
module _ (base : Text) (S : Server) (window : Option FreighterApi) where
  -- The answer to `verify`.
  abbrev pub verified : Text → Result Json × S.State → Result (Text × Text) × S.State
  verified public_key (ok null, s) =
      (err (plain (codes "Cannot read properties of null (reading 'accessToken')")), s)
  verified public_key (ok response, s) = (ok (public_key, token_of response), s)
  verified public_key (err e, s) = (err e, s)

  abbrev pub signed : Text → Result Text → S.State → Result (Text × Text) × S.State
  signed public_key (ok signature) s = verified public_key (
      S.post (base ++ codes "/auth/verify")
        (with (codes "publicKey") (text public_key)
          (with (codes "signature") (text signature) no_fields))
        s)
  signed public_key (err e) s = (err e, s)

  abbrev pub challenged : Text → Result Json × S.State → Result (Text × Text) × S.State
  challenged public_key (ok null, s) =
      (err (plain (codes "Cannot read properties of null (reading 'challenge')")), s)
  challenged public_key (ok challenge, s) =
      signed public_key (sign_message window (message_of challenge)) s
  challenged public_key (err e, s) = (err e, s)

  -- The address and the token.
  unfoldable pub login : Text → S.State → Result (Text × Text) × S.State
  unfolding sign_message
  login public_key s = challenged public_key (
      S.post (base ++ codes "/auth/challenge")
        (with (codes "publicKey") (text public_key) no_fields) s)

  unfoldable pub refresh_token : Text → S.State → Result (Text × Text) × S.State
  unfolding login
  refresh_token public_key s = login public_key s
