-- ===== src/Examples/Settings.antt =====
-- The socket of the client.
use soro_lend.Prelude.{◌≡◌, [], ◌∷◌, if◌then◌else◌}
use soro_lend.Text.{codes, text_eq}
use soro_lend.Frontend.Sockets.{Sockets, no_sockets, connect, disconnect, subscribe, receive}
use soro_lend.Frontend.Sockets.Reconnection.{connects, subscribes, after_calls, reconnected_silent}

-- A subscription to prices, then a disconnection.
abbrev back : Sockets
back =
    connect
      (disconnect (after_calls (connects ∷ subscribes (codes "price:update") 1 ∷ []) no_sockets))

reconnected_silent_example :
    (receive (codes "price:update") back ≡ [])
    × (receive (codes "price:update") (subscribe (codes "price:update") 2 back) ≡ 2 ∷ [])
    × (receive (codes "connected") (subscribe (codes "price:update") 2 back)
        ≡ (if text_eq (codes "price:update") (codes "connected") then 2 ∷ [] else []))
reconnected_silent_example =
    reconnected_silent (connects ∷ subscribes (codes "price:update") 1 ∷ []) (codes "price:update")
      (codes "connected") 2
