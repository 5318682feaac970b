-- ===== src/Auth/SingleUse.antt =====
-- A challenge is good for one answer, and any answer is good.
use soro_lend.Prelude.{ℕ, ◌+◌, ◌*◌, ◌≤◌, ◌<◌, ◌≡◌, none, some, ◌++◌, arith}
use soro_lend.Text.{Text, codes}
use soro_lend.Runtime.{ok, err, unauthorized}
use soro_lend.Auth.{
  Redis, Settings, redis_key, challenge_text, generate_challenge, verify_signature,
}

-- What Redis documents: a key that was set with a time to live, in seconds, is found before that
-- time is over, and a deleted key is not found.
pub record RedisLaws (R : Redis) : Type 0 where
  pub get-setex :
      (now later : ℕ) (key : Text) (ttl : ℕ) (value : Text) (cache : R.Cache)
      → now ≤ later
      → later < now + ttl * 1000
      → R.get later key (R.setex now key ttl value cache) ≡ some value
  pub get-del : (now : ℕ) (key : Text) (cache : R.Cache) → R.get now key (R.del key cache) ≡ none

module _ (R : Redis) (s : Settings) (sign : Text → Text) (laws : RedisLaws R) where
  -- Where Redis keeps a key until it expires: between a challenge and its expiry any signature at
  -- all is accepted. The token is that of the key that asked, and the challenge is deleted.
  pub verify_signature-generate_challenge :
      (now later : ℕ) (nonce public_key signature : Text) (cache : R.Cache)
      → now ≤ later
      → later < now + s.ttl * 1000
      → let (_, cache') = generate_challenge R s sign now nonce public_key cache in
        verify_signature R s sign later public_key signature cache'
        ≡ (ok (sign public_key), R.del (redis_key R s sign public_key) cache')
  unfolding generate_challenge verify_signature
  verify_signature-generate_challenge now later nonce public_key signature cache h k = rw (
      laws.get-setex now later (s.prefix ++ public_key) s.ttl
        (challenge_text R s sign now nonce public_key) cache h k)

  -- Where Redis does not find a deleted key: a call that returned a token cannot be replayed. From
  -- the cache that it left, the next call for the same key is refused, at any time and with any
  -- signature.
  pub verify_signature_once :
      (now later : ℕ) (public_key signature signature' token : Text) (cache cache' : R.Cache)
      → verify_signature R s sign now public_key signature cache ≡ (ok token, cache')
      → verify_signature R s sign later public_key signature' cache' ≡ (
        err (unauthorized (codes "Challenge not found or expired. Request a new challenge.")),
        cache',
      )
  unfolding verify_signature
  verify_signature_once now later public_key signature signature' token cache cache' done =
      ground (arith, laws.get-del later (s.prefix ++ public_key) cache)
