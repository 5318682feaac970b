-- ===== src/Frontend/Sockets/Reconnection.antt =====
-- Subscriptions across a disconnection.
use soro_lend.Prelude.{
  ℕ, suc, ◌<◌, ◌≡◌, refl, arith, Option, none, some, List, [], ◌∷◌, filter, not, Bool, Bool-cases,
  inl, inr, if◌then◌else◌,
}
use soro_lend.Text.{Text, text_eq, text_eq_refl}
use soro_lend.Frontend.Sockets.{
  Handler, Sockets, no_sockets, connect, connected, on_event, subscribe, registered, unsubscribe,
  removed, is_handler, disconnect, called, receive,
}

-- The calls of the service, in any order.
pub data Call : Type 0 where
  connects watches disconnects : Call
  subscribes unsubscribes : Text → ℕ → Call

unfoldable pub after_call : Call → Sockets → Sockets
unfolding connect on_event subscribe unsubscribe disconnect
after_call connects s = connect s
after_call watches s = on_event s
after_call disconnects s = disconnect s
after_call (subscribes event id) s = subscribe event id s
after_call (unsubscribes event id) s = unsubscribe event id s

unfoldable pub after_calls : List Call → Sockets → Sockets
unfolding after_call
after_calls [] s = s
after_calls (c ∷ cs) s = after_calls cs (after_call c s)

-- Handlers stand on sockets that were made, and so does the field `socket`.
abbrev AllBelow : ℕ → List Handler → Type 0
AllBelow n [] = Unit
AllBelow n (h ∷ hs) = (h.socket < n) × AllBelow n hs

abbrev FieldBelow : ℕ → Option ℕ → Type 0
FieldBelow n none = Unit
FieldBelow n (some k) = k < n

record IsMade (s : Sockets) : Type 0 where
  handlers_made : AllBelow s.made s.handlers
  field_made : FieldBelow s.made s.socket

AllBelow-suc : (n : ℕ) (hs : List Handler) → AllBelow n hs → AllBelow (suc n) hs
AllBelow-suc n [] v = tt
AllBelow-suc n (h ∷ hs) v = (omega (arith, v.0), AllBelow-suc n hs v.1)

AllBelow-filter :
    (p : Handler → Bool) (n : ℕ) (hs : List Handler) → AllBelow n hs → AllBelow n (filter p hs)
AllBelow-filter p n [] v = tt
AllBelow-filter p n (h ∷ hs) v = elim (Bool-cases (p h)) [
  | inl kept ↦ rw kept (v.0, AllBelow-filter p n hs v.1)
  | inr dropped ↦ rw dropped (AllBelow-filter p n hs v.1)
]

connected-IsMade : (field : Option ℕ) (s : Sockets) → IsMade s → IsMade (connected field s)
connected-IsMade none s v = record {
  handlers_made = AllBelow-suc s.made s.handlers v.handlers_made;
  field_made = omega arith;
}
connected-IsMade (some k) s v = v

registered-IsMade :
    (field : Option ℕ) (event : Text) (id : ℕ) (s : Sockets)
    → FieldBelow s.made field
    → IsMade s
    → IsMade (registered field event id s)
registered-IsMade none event id s below v = v
registered-IsMade (some k) event id s below v = record {
  handlers_made = (below, v.handlers_made);
  field_made = v.field_made;
}

removed-IsMade :
    (field : Option ℕ) (event : Text) (id : ℕ) (s : Sockets)
    → IsMade s
    → IsMade (removed field event id s)
removed-IsMade none event id s v = v
removed-IsMade (some k) event id s v = record {
  handlers_made =
      AllBelow-filter (λ h. not (is_handler k event id h)) s.made s.handlers v.handlers_made;
  field_made = v.field_made;
}

after_call-IsMade : (c : Call) (s : Sockets) → IsMade s → IsMade (after_call c s)
unfolding after_call
after_call-IsMade connects s v = connected-IsMade s.socket s v
after_call-IsMade watches s v = connected-IsMade s.socket s v
after_call-IsMade disconnects s v = record { handlers_made = v.handlers_made; field_made = tt }
after_call-IsMade (subscribes event id) s v = registered-IsMade s.socket event id s v.field_made v
after_call-IsMade (unsubscribes event id) s v = removed-IsMade s.socket event id s v

after_calls-IsMade : (cs : List Call) (s : Sockets) → IsMade s → IsMade (after_calls cs s)
unfolding after_calls
after_calls-IsMade [] s v = v
after_calls-IsMade (c ∷ cs) s v = after_calls-IsMade cs (after_call c s) (after_call-IsMade c s v)

called_fresh : (n : ℕ) (event : Text) (hs : List Handler) → AllBelow n hs → called n event hs ≡ []
unfolding called
called_fresh n event [] v = refl
called_fresh n event (h ∷ hs) v = ground (arith, called_fresh n event hs)

-- After any calls of the service: if it disconnects and connects again, no event reaches any handler,
-- whatever was subscribed before, until something subscribes again; a subscription made then is called
-- for its event, and for no other.
pub reconnected_silent :
    (cs : List Call) (event other : Text) (id : ℕ)
    → let s = connect (disconnect (after_calls cs no_sockets)) in
      (receive event s ≡ [])
      × (receive event (subscribe event id s) ≡ id ∷ [])
      × (receive other (subscribe event id s) ≡ (if text_eq event other then id ∷ [] else []))
unfolding connect disconnect receive subscribe called
reconnected_silent cs event other id =
    let s = after_calls cs no_sockets in
    let start : IsMade no_sockets = record { handlers_made = tt; field_made = tt } in
    let made = (after_calls-IsMade cs no_sockets start).handlers_made in
    let silent = called_fresh s.made event s.handlers made in
    let silent' = called_fresh s.made other s.handlers made in
    (silent, ground (arith, text_eq_refl event, silent), ground (arith, silent'))
