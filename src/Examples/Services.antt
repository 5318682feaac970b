-- ===== src/Examples/Services.antt =====
-- Prices, notifications and sign-in.
use soro_lend.Prelude.{
  ℕ, ◌+◌, ◌*◌, ◌≡◌, refl, Option, none, some, [], ◌∷◌, arith, if◌then◌else◌, ltb, ◌&&◌,
}
use soro_lend.Text.{Text, codes, text_eq, text_eq_refl}
use soro_lend.Runtime.{ok, err, unauthorized}
use soro_lend.Schema.{PriceFeed}
use soro_lend.Notifications.{PushSubscription, Subscriptions}
use soro_lend.Auth.{Redis, Settings, verify_signature}
use soro_lend.Auth.SingleUse.{RedisLaws, verify_signature_once}

abbrev feed : PriceFeed
feed = record {
  id = [];
  asset_id = codes "a1";
  price = codes "3";
  source = codes "band";
  timestamp = 0;
}

abbrev phone : PushSubscription
phone = record { endpoint = codes "E1"; p256dh = codes "k"; auth = codes "s" }

abbrev registered : Subscriptions
registered = (codes "GA", phone ∷ []) ∷ []

-- A cache of one cell, with the key, the value and the time at which it expires.
abbrev pub cell_get : ℕ → Text → Option (Text × Text × ℕ) → Option Text
cell_get now key none = none
cell_get now key (some (k, v, expiry)) = if ltb now expiry && text_eq k key then some v else none

abbrev pub cell_del : Text → Option (Text × Text × ℕ) → Option (Text × Text × ℕ)
cell_del key none = none
cell_del key (some (k, v, expiry)) = if text_eq k key then none else some (k, v, expiry)

abbrev pub cell : Redis
cell = record {
  Cache = Option (Text × Text × ℕ);
  get = cell_get;
  setex = λ now key ttl value _. some (key, value, now + ttl * 1000);
  del = cell_del;
}

cell_get-del :
    (now : ℕ) (key : Text) (c : Option (Text × Text × ℕ)) → cell_get now key (cell_del key c) ≡ none
cell_get-del now key none = refl
cell_get-del now key (some (k, v, expiry)) = ground arith

pub cell_laws : RedisLaws cell
cell_laws = record {
  get-setex = λ now later key ttl value cache h k. ground (arith, text_eq_refl key);
  get-del = cell_get-del;
}

abbrev pub settings : Settings
settings = record { ttl = 300; prefix = codes "auth:" }

abbrev issued : Option (Text × Text × ℕ)
issued = some (codes "auth:GA", codes "x", 300005)

accepted :
    verify_signature cell settings (λ k. k) 6 (codes "GA") (codes "forged") issued
    ≡ (ok (codes "GA"), none)
unfolding verify_signature text_eq
accepted = refl

verify_signature_once_example :
    verify_signature cell settings (λ k. k) 7 (codes "GA") (codes "again") none
    ≡ (err (unauthorized (codes "Challenge not found or expired. Request a new challenge.")), none)
verify_signature_once_example =
    verify_signature_once cell settings (λ k. k) cell_laws 6 7 (codes "GA") (codes "forged")
      (codes "again") (codes "GA") issued none accepted
