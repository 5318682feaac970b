-- ===== src/Auth.antt =====
-- AuthService and WalletAuthGuard (backend/src/auth). Redis is a parameter: `get`, `setex` and `del`
-- on its state, at a time. So are the random nonce and the signer of tokens.
pub mod SingleUse
use soro_lend.Prelude.{
  ℕ, ◌+◌, ◌*◌, Bool, true, false, not, Option, none, some, List, [], ◌∷◌, ◌++◌, if◌then◌else◌,
}
use soro_lend.Prelude.Int.{pos}
use soro_lend.Text.{Text, codes, truthy}
use soro_lend.Text.Decimal.{to_text}
use soro_lend.Runtime.{Error, unauthorized, Result, ok, err}

-- Times are in milliseconds.
pub record Redis : Type 1 where
  pub Cache : Type 0
  pub get : ℕ → Text → Cache → Option Text
  pub setex : ℕ → Text → ℕ → Text → Cache → Cache
  pub del : Text → Cache → Cache

-- CHALLENGE_TTL_SECONDS and CHALLENGE_PREFIX of the configuration.
pub record Settings : Type 0 where
  pub ttl : ℕ
  pub prefix : Text

pub record Challenge : Type 0 where
  pub challenge : Text
  pub expires_at : ℕ

-- The signature is not looked at.
unfoldable pub verify_stellar_signature : Text → Text → Text → Bool
verify_stellar_signature challenge signature public_key = true

-- `canActivate`: the header `x-public-key`, and the user that the request is given.
unfoldable pub can_activate : Option Text → Option Text
can_activate header = truthy header

-- `JwtStrategy.validate`, on the subject of the token.
abbrev pub subject : Option Text → Result Text
subject none = err (unauthorized (codes "Invalid token payload"))
subject (some sub) = ok sub

unfoldable pub validate : Option Text → Result Text
validate sub = subject (truthy sub)

module _ (R : Redis) (s : Settings) (sign : Text → Text) where
  abbrev pub redis_key : Text → Text
  redis_key public_key = s.prefix ++ public_key

  -- `SoroLend: authenticate ${publicKey} at ${Date.now()}:${nonce}`
  abbrev pub challenge_text : ℕ → Text → Text → Text
  challenge_text now nonce public_key =
      codes "SoroLend: authenticate "
      ++ (public_key ++ (codes " at " ++ (to_text (pos now) ++ (codes ":" ++ nonce))))

  unfoldable pub generate_challenge : ℕ → Text → Text → R.Cache → Challenge × R.Cache
  generate_challenge now nonce public_key cache =
      let challenge = challenge_text now nonce public_key in
      let answer : Challenge = record { challenge = challenge; expires_at = now + s.ttl * 1000 } in
      (answer, R.setex now (redis_key public_key) s.ttl challenge cache)

  abbrev pub checked : Text → Text → Option Text → R.Cache → Result Text × R.Cache
  checked public_key signature none cache =
      (err (unauthorized (codes "Challenge not found or expired. Request a new challenge.")), cache)
  checked public_key signature (some challenge) cache = (
    if not (verify_stellar_signature challenge signature public_key)
        then err (unauthorized (codes "Invalid signature. Authentication failed."))
        else ok (sign public_key),
    R.del (redis_key public_key) cache,
  )

  unfoldable pub verify_signature : ℕ → Text → Text → R.Cache → Result Text × R.Cache
  unfolding verify_stellar_signature
  verify_signature now public_key signature cache =
      checked public_key signature (truthy (R.get now (redis_key public_key) cache)) cache
