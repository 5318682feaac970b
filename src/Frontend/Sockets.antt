-- ===== src/Frontend/Sockets.antt =====
-- NotificationService (frontend/src/app/core/services/notification.service.ts): the socket, and the
-- handlers that are registered on it. A socket is the number of its creation; `io(…)` makes a new one.
pub mod Reconnection
use soro_lend.Prelude.{
  ℕ, suc, ◌+◌, Bool, ◌&&◌, not, Option, none, some, List, [], ◌∷◌, ◌==◌, filter, if◌then◌else◌,
}
use soro_lend.Text.{Text, text_eq}

-- A handler: the socket it is registered on, its event and its number.
pub record Handler : Type 0 where
  pub socket : ℕ
  pub event : Text
  pub id : ℕ

-- The sockets made so far, the field `socket`, and the handlers on all sockets.
pub record Sockets : Type 0 where
  pub made : ℕ
  pub socket : Option ℕ
  pub handlers : List Handler

abbrev pub no_sockets : Sockets
no_sockets = record { made = 0; socket = none; handlers = [] }

-- `if (!this.socket) { this.socket = io(…) }`
abbrev pub connected : Option ℕ → Sockets → Sockets
connected none s = record s { made = suc s.made; socket = some s.made }
connected (some k) s = s

unfoldable pub connect : Sockets → Sockets
connect s = connected s.socket s

-- `onEvent` itself only connects; the rest runs for each subscription.
unfoldable pub on_event : Sockets → Sockets
unfolding connect
on_event s = connect s

-- `this.socket?.on(eventName, handler)`
abbrev pub registered : Option ℕ → Text → ℕ → Sockets → Sockets
registered none event id s = s
registered (some k) event id s = record s {
  handlers = record { socket = k; event = event; id = id } ∷ s.handlers;
}

unfoldable pub subscribe : Text → ℕ → Sockets → Sockets
subscribe event id s = registered s.socket event id s

-- `this.socket?.off(eventName, handler)`, on the socket of that moment
abbrev pub is_handler : ℕ → Text → ℕ → Handler → Bool
is_handler k event id h = h.socket == k && (text_eq h.event event && h.id == id)

abbrev pub removed : Option ℕ → Text → ℕ → Sockets → Sockets
removed none event id s = s
removed (some k) event id s = record s {
  handlers = filter (λ h. not (is_handler k event id h)) s.handlers;
}

unfoldable pub unsubscribe : Text → ℕ → Sockets → Sockets
unsubscribe event id s = removed s.socket event id s

unfoldable pub disconnect : Sockets → Sockets
disconnect s = record s { socket = none }

-- The handlers that run when an event comes in on a socket.
unfoldable pub called : ℕ → Text → List Handler → List ℕ
called k event [] = []
called k event (h ∷ hs) =
    let rest = called k event hs in
    if h.socket == k && text_eq h.event event then h.id ∷ rest else rest

abbrev pub received : Option ℕ → Text → List Handler → List ℕ
received none event hs = []
received (some k) event hs = called k event hs

-- The handlers that run for an event of the server: it comes in on the socket that is connected.
unfoldable pub receive : Text → Sockets → List ℕ
unfolding called
receive event s = received s.socket event s.handlers
