-- ===== src/Frontend/Components/Outer.antt =====
-- The components drive the page that `Session` describes.
use soro_lend.Prelude.{◌≡◌, refl, Bool, true, Option, none, some, [], ◌∷◌, arith}
use soro_lend.Text.{Text, truthy}
use soro_lend.Runtime.{Number}
use soro_lend.Frontend.Actions.{Kind, Action, Prices}
use soro_lend.Frontend.Reducers.{Storage, State}
use soro_lend.Frontend.Selectors.{select_wallet_address}
use soro_lend.Frontend.Session.{Session, is_outer, dispatch, Reachable, further, outer}
use soro_lend.Frontend.Forms.{Form, submit, submitted}
use soro_lend.Frontend.Components.{
  connect, dashboard_on_init, dashboard_loads, governance_on_address, power_loads,
  governance_on_init, sidebar_on_init, vote, voted, price_stream,
}

module _ {N : Number} where
  -- What a component dispatches in a state of the store.
  pub data Dispatched (s : State N) : Action N → Type 0 where
    connects : Dispatched s connect
    submits :
        {a : Action N} (kind : Kind) (f : Form)
        → submit kind (select_wallet_address s) f ≡ some a
        → Dispatched s a
    opens_dashboard : {a : Action N} → dashboard_on_init s ≡ a ∷ [] → Dispatched s a
    opens_sidebar : {a : Action N} → sidebar_on_init ≡ a ∷ [] → Dispatched s a
    opens_governance : {a : Action N} → governance_on_init ≡ a ∷ [] → Dispatched s a
    sees_address :
        {a : Action N} → governance_on_address (select_wallet_address s) ≡ a ∷ [] → Dispatched s a
    votes :
        {a : Action N} (proposal_id : Text) (support : Bool)
        → vote (select_wallet_address s) proposal_id support ≡ a ∷ []
        → Dispatched s a
    streams : (prices : Prices N) → Dispatched s (price_stream prices)

  submitted-is_outer :
      (kind : Kind) (address : Option Text) (f : Form) {a : Action N}
      → submitted kind address f ≡ some a
      → is_outer a ≡ true
  submitted-is_outer kind none f h = cc
  submitted-is_outer kind (some address) f h = ground arith

  dashboard-is_outer :
      (address : Option Text) {a : Action N} → dashboard_loads address ≡ a ∷ [] → is_outer a ≡ true
  dashboard-is_outer none h = cc
  dashboard-is_outer (some address) h = ground arith

  power-is_outer :
      (address : Option Text) {a : Action N} → power_loads address ≡ a ∷ [] → is_outer a ≡ true
  power-is_outer none h = cc
  power-is_outer (some address) h = ground arith

  voted-is_outer :
      (id : Text) (support : Bool) (address : Option Text) {a : Action N}
      → voted id support address ≡ a ∷ []
      → is_outer a ≡ true
  voted-is_outer id support none h = cc
  voted-is_outer id support (some address) h = ground arith

  Dispatched-is_outer : (s : State N) {a : Action N} → Dispatched s a → is_outer a ≡ true
  unfolding submit dashboard_on_init governance_on_address vote
  Dispatched-is_outer s connects = refl
  Dispatched-is_outer s (submits kind f h) =
      submitted-is_outer kind (truthy (select_wallet_address s)) f h
  Dispatched-is_outer s (opens_dashboard h) =
      dashboard-is_outer (truthy (select_wallet_address s)) h
  Dispatched-is_outer s (opens_sidebar h) = ground arith
  Dispatched-is_outer s (opens_governance h) = ground arith
  Dispatched-is_outer s (sees_address h) = power-is_outer (truthy (select_wallet_address s)) h
  Dispatched-is_outer s (votes id support h) =
      voted-is_outer id support (truthy (select_wallet_address s)) h
  Dispatched-is_outer s (streams prices) = refl

  -- From a session that a page comes to, whatever a component dispatches leads to a session that the
  -- page comes to.
  pub Dispatched-Reachable :
      (page : Storage) (s : Session N) {a : Action N}
      → Reachable page s
      → Dispatched s.state a
      → Reachable page (dispatch page a s)
  Dispatched-Reachable page s {a} before d =
      further before (outer a s (Dispatched-is_outer s.state d))
