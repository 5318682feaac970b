-- ===== src/Notifications/Subscribers.antt =====
-- The subscriptions of a key under registration and removal.
use soro_lend.Prelude.{
  ◌≡◌, refl, ◌∙◌, true, false, not, List, [], ◌∷◌, ◌++◌, arith, filter, if◌then◌else◌, Bool-cases,
  inl, inr,
}
use soro_lend.Text.{Text, text_eq, text_eq_refl}
use soro_lend.Notifications.{
  PushSubscription, Subscriptions, get, get_or_empty, register_subscription,
  unregister_subscription,
}

-- The subscriptions that a notification to a key goes to.
abbrev pub held_by : Text → Subscriptions → List PushSubscription
held_by key m = get_or_empty (get key m)

-- None of the subscriptions is for the endpoint.
unfoldable pub Lacks : Text → List PushSubscription → Type 0
Lacks endpoint [] = Unit {0}
Lacks endpoint (s ∷ subs) = (text_eq s.endpoint endpoint ≡ false) × Lacks endpoint subs

Lacks-filter :
    (endpoint : Text) (subs : List PushSubscription)
    → Lacks endpoint (filter (λ s. not (text_eq s.endpoint endpoint)) subs)
unfolding Lacks
Lacks-filter endpoint [] = tt
Lacks-filter endpoint (s ∷ subs) = elim (Bool-cases (text_eq s.endpoint endpoint)) [
  | inl same ↦ rw same (Lacks-filter endpoint subs)
  | inr other ↦ rw other (other, Lacks-filter endpoint subs)
]

filter_lacking :
    (endpoint : Text) (subs : List PushSubscription)
    → Lacks endpoint subs
    → filter (λ s. not (text_eq s.endpoint endpoint)) subs ≡ subs
unfolding Lacks
filter_lacking endpoint [] h = refl
filter_lacking endpoint (s ∷ subs) h = rw (h.0, filter_lacking endpoint subs h.1)

filter-snoc :
    (endpoint : Text) (subs : List PushSubscription) (s : PushSubscription)
    → text_eq s.endpoint endpoint ≡ true
    → filter (λ s. not (text_eq s.endpoint endpoint)) (subs ++ s ∷ [])
      ≡ filter (λ s. not (text_eq s.endpoint endpoint)) subs
filter-snoc endpoint [] s h = rw h
filter-snoc endpoint (x ∷ subs) s h = rw (filter-snoc endpoint subs s h)

-- After a removal the key has no subscription for the endpoint, and every other key has the
-- subscriptions it had.
pub unregister_removes :
    (key endpoint : Text) (m : Subscriptions)
    → Lacks endpoint (held_by key (unregister_subscription key endpoint m))
      × ((other : Text)
          → held_by other (unregister_subscription key endpoint m) ≡ (
              if text_eq key other
              then held_by key (unregister_subscription key endpoint m)
              else held_by other m))
unfolding unregister_subscription
unregister_removes key endpoint m = (
  rw (text_eq_refl key) (Lacks-filter endpoint (held_by key m)),
  λ other. ground (arith, text_eq_refl key),
)

-- To register a subscription for an endpoint that the key has none for, and to remove it again,
-- leaves the key with the subscriptions it had.
pub unregister-register :
    (key : Text) (s : PushSubscription) (m : Subscriptions)
    → Lacks s.endpoint (held_by key m)
    → held_by key (unregister_subscription key s.endpoint (register_subscription key s m))
      ≡ held_by key m
unfolding unregister_subscription register_subscription
unregister-register key s m fresh = rw (text_eq_refl key) (
    filter-snoc s.endpoint (held_by key m) s (text_eq_refl s.endpoint)
    ∙ filter_lacking s.endpoint (held_by key m) fresh)
