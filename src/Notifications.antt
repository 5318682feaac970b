-- ===== src/Notifications.antt =====
-- AlertService and PushService (backend/src/modules/notifications). The log lines are left out, and
-- so are the texts of the messages.
pub mod Email
pub mod Subscribers
pub mod Alerts
use soro_lend.Prelude.{
  Bool, true, false, not, Option, none, some, List, [], ◌∷◌, ◌++◌, filter, if◌then◌else◌,
}
use soro_lend.Text.{Text, text_eq}
use soro_lend.Schema.{User}
use soro_lend.Store.{Env, Db, borrows_of, collaterals_of}
use soro_lend.Valuation.{collateral_value, debt_value}
use soro_lend.Liquidation.{ratio_or_top}

pub record PushSubscription : Type 0 where
  pub endpoint : Text
  pub auth : Text
  pub p256dh : Text

-- The map `subscriptions`, with the last entry of a key first.
abbrev pub Subscriptions : Type 0
Subscriptions = List (Text × List PushSubscription)

-- `subscriptions.get(publicKey)`
abbrev pub get : Text → Subscriptions → Option (List PushSubscription)
get key [] = none
get key ((k, subs) ∷ rest) = if text_eq k key then some subs else get key rest

-- `subscriptions.get(publicKey) || []`
abbrev pub get_or_empty : Option (List PushSubscription) → List PushSubscription
get_or_empty none = []
get_or_empty (some subs) = subs

-- `subscriptions.set(publicKey, subs)`
abbrev pub set : Text → List PushSubscription → Subscriptions → Subscriptions
set key subs m = (key, subs) ∷ m

unfoldable pub register_subscription : Text → PushSubscription → Subscriptions → Subscriptions
register_subscription key subscription m = set key (get_or_empty (get key m) ++ subscription ∷ []) m

unfoldable pub unregister_subscription : Text → Text → Subscriptions → Subscriptions
unregister_subscription key endpoint m =
    set key (filter (λ s. not (text_eq s.endpoint endpoint)) (get_or_empty (get key m))) m

-- `!subs || subs.length === 0`
abbrev pub has_any : Option (List PushSubscription) → Bool
has_any none = false
has_any (some []) = false
has_any (some (s ∷ subs)) = true

unfoldable pub send_push_notification : Text → Subscriptions → Bool
send_push_notification key m = has_any (get key m)

-- `sendHealthAlert` sends a push notification about the health factor.
unfoldable pub send_health_alert : Text → Subscriptions → Bool
unfolding send_push_notification
send_health_alert key m = send_push_notification key m

module _ (E : Env) where
  unfoldable pub compute_health_factor : Text → Db E → Option E.num.Value
  compute_health_factor user_id db = elim (borrows_of E user_id db) [
    | [] ↦ none
    | b ∷ rest ↦ some (
        ratio_or_top E (collateral_value E.num (collaterals_of E user_id db))
          (debt_value E.num (b ∷ rest)))
  ]

  pub data Level : Type 0 where
    healthy warning critical : Level

  -- CRITICAL_THRESHOLD and WARNING_THRESHOLD
  unfoldable pub level_of : E.num.Value → Level
  level_of health =
      if E.num.le health (E.num.literal 11 1)
      then critical
      else if E.num.le health (E.num.literal 13 1)
      then warning
      else healthy

  -- What the round of one user sends: an alert to the key of a user at a critical level.
  abbrev pub alert_at : Text → Level → List Text
  alert_at key critical = key ∷ []
  alert_at key warning = []
  alert_at key healthy = []

  abbrev pub alert_of : User → Option E.num.Value → List Text
  alert_of user none = []
  alert_of user (some health) = alert_at user.public_key (level_of health)

  -- The keys that `scanHealthFactors` sends an alert to, in order.
  unfoldable pub alerts_among : List User → Db E → List Text
  alerts_among [] db = []
  alerts_among (user ∷ users) db =
      alert_of user (compute_health_factor user.id db) ++ alerts_among users db

  unfoldable pub scan_health_factors : Db E → List Text
  unfolding alerts_among
  scan_health_factors db = alerts_among (E.users.find (λ _. true) db.users) db
