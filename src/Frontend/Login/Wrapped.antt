-- ===== src/Frontend/Login/Wrapped.antt =====
-- The client against the server of backend/src/auth: with answers as the controller returns them, and
-- wrapped by the interceptor that `main.ts` installs.
use soro_lend.Prelude.{ℕ, ◌≡◌, refl, Option, none, some, []}
use soro_lend.Text.{Text, codes}
use soro_lend.Runtime.{not_found, Result, ok, err}
use soro_lend.Auth.{Redis, Settings}
use soro_lend.Http.{Json, null, text, object, with, no_fields}
use soro_lend.Http.Controllers.{
  Outside, Reply, challenge_issued, access_token, Request, auth, serve_auth,
}
use soro_lend.Http.Routes.{after_prefix, post_request, post_request-origin}
use soro_lend.Frontend.Wallet.{FreighterApi}
use soro_lend.Frontend.Login.{Server, login}

-- The objects that the two handlers of AuthController return; `iso` prints a time.
abbrev pub to_json : (ℕ → Text) → Reply → Json
to_json iso (challenge_issued c) = object (
    with (codes "challenge") (text c.challenge)
      (with (codes "expiresAt") (text (iso c.expires_at)) no_fields))
to_json iso (access_token t) = object (with (codes "accessToken") (text t) no_fields)
to_json iso _ = null

-- The next call is at `time`, and the one after it at `later`.
pub record Moment (R : Redis) : Type 0 where
  pub cache : R.Cache
  pub time : Outside
  pub later : Outside

-- What the other controllers answer is `elsewhere`.
module _ (R : Redis) (s : Settings) (sign : Text → Text) (iso : ℕ → Text)
    (elsewhere : Request → Moment R → Result Json × Moment R) where
  abbrev answer_json : (Json → Json) → Outside → Result Reply × R.Cache → Result Json × Moment R
  answer_json wrap later (ok r, cache) =
      (ok (wrap (to_json iso r)), record { cache = cache; time = later; later = later })
  answer_json wrap later (err e, cache) =
      (err e, record { cache = cache; time = later; later = later })

  abbrev posted : (Json → Json) → Option Request → Moment R → Result Json × Moment R
  posted wrap none m = (err (not_found []), m)
  posted wrap (some (auth r)) m = answer_json wrap m.later (serve_auth R s sign m.time r m.cache)
  posted wrap (some r) m = elsewhere r m

  -- The server at `origin`, with `wrap` on the answers of AuthController.
  abbrev pub backend : Text → (Json → Json) → Server
  backend origin wrap = record {
    State = Moment R;
    post = λ url body m. posted wrap (post_request origin url body) m;
  }

  -- As it is, `apiUrl` is the origin without the prefix: every login fails with a 404, whatever the
  -- wallet and the answers.
  pub login_unrouted :
      (wrap : Json → Json) (window : Option FreighterApi) (origin key : Text) (m : Moment R)
      → (login origin (backend origin wrap) window key m).0 ≡ err (not_found [])
  unfolding login after_prefix
  login_unrouted wrap window origin key m =
      rw
        (post_request-origin origin (codes "/auth/challenge")
          (with (codes "publicKey") (text key) no_fields) refl)
        refl
