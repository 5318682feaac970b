-- ===== src/Frontend/Session/Invariant.antt =====
-- What holds of every session that a page comes to.
use soro_lend.Prelude.{Option, none, some, true, ◌||◌, ◌≡◌, refl, arith}
use soro_lend.Text.{Text}
use soro_lend.Runtime.{Number}
use soro_lend.Frontend.Actions.{
  Action, connect_wallet, login, logout, load_markets, load_portfolio, submit_transaction,
  price_stream_updated, load_proposals, cast_vote, load_voting_power,
}
use soro_lend.Frontend.Reducers.{Storage, boolean}
use soro_lend.Frontend.Effects.{
  Answer, completed, failed, awaited, is_some, connect_answer, login_answer, markets_answer,
  portfolio_answer, transaction_answer, proposals_answer, vote_answer, power_answer,
}
use soro_lend.Frontend.Session.{
  Session, is_outer, start, dispatch, deliver, ◌⇒◌, outer, answer, Reachable, loaded, further,
}

-- A spinner is shown only while a request that will take it away is in flight; a connected wallet has
-- an address; and the token of the store is that of the storage.
pub record Inv {N : Number} (s : Session N) : Type 0 where
  pub auth_waits :
      s.state.auth.loading ≡ true → (s.requests.connect || is_some s.requests.login) ≡ true
  pub markets_waits : s.state.markets.loading ≡ true → s.requests.markets ≡ true
  pub portfolio_waits : s.state.portfolio.loading ≡ true → is_some s.requests.portfolio ≡ true
  pub transaction_waits :
      s.state.portfolio.transaction_pending ≡ true → is_some s.requests.transaction ≡ true
  pub governance_waits :
      s.state.governance.loading ≡ true
      → (s.requests.proposals || is_some s.requests.vote || is_some s.requests.power) ≡ true
  pub has_address : s.state.auth.connected ≡ true → is_some s.state.auth.address ≡ true
  pub same_token : s.state.auth.jwt ≡ s.storage.jwt

is_some-boolean : (t : Option Text) → boolean t ≡ true → is_some t ≡ true
is_some-boolean none h = cc
is_some-boolean (some t) h = refl

module _ {N : Number} (page : Storage) where
  start-Inv : Inv {N = N} (start page)
  start-Inv = record {
    auth_waits = λ h. cc;
    markets_waits = λ h. cc;
    portfolio_waits = λ h. cc;
    transaction_waits = λ h. cc;
    governance_waits = λ h. cc;
    has_address = is_some-boolean page.address;
    same_token = refl;
  }

  dispatch-Inv :
      (a : Action N) (s : Session N) → is_outer a ≡ true → Inv s → Inv (dispatch page a s)
  unfolding dispatch
  dispatch-Inv connect_wallet s o v = ground arith
  dispatch-Inv (login address) s o v = ground arith
  dispatch-Inv logout s o v = ground arith
  dispatch-Inv load_markets s o v = ground arith
  dispatch-Inv (load_portfolio address) s o v = ground arith
  dispatch-Inv (submit_transaction t) s o v = ground arith
  dispatch-Inv (price_stream_updated prices) s o v = ground arith
  dispatch-Inv load_proposals s o v = ground arith
  dispatch-Inv (cast_vote ballot) s o v = ground arith
  dispatch-Inv (load_voting_power address) s o v = ground arith
  dispatch-Inv _ s o v = cc

  pub deliver-Inv :
      (r : Answer N) (s : Session N) → awaited s.requests r ≡ true → Inv s → Inv (deliver page r s)
  unfolding deliver
  deliver-Inv (connect_answer (completed address)) s w v = ground arith
  deliver-Inv (connect_answer (failed error)) s w v = ground arith
  deliver-Inv (login_answer (completed pair)) s w v = ground arith
  deliver-Inv (login_answer (failed error)) s w v = ground arith
  deliver-Inv (markets_answer (completed markets)) s w v = ground arith
  deliver-Inv (markets_answer (failed error)) s w v = ground arith
  deliver-Inv (portfolio_answer (completed l)) s w v = ground arith
  deliver-Inv (portfolio_answer (failed error)) s w v = ground arith
  deliver-Inv (transaction_answer (completed position)) s w v = ground arith
  deliver-Inv (transaction_answer (failed error)) s w v = ground arith
  deliver-Inv (proposals_answer (completed proposals)) s w v = ground arith
  deliver-Inv (proposals_answer (failed error)) s w v = ground arith
  deliver-Inv (vote_answer (completed proposal)) s w v = ground arith
  deliver-Inv (vote_answer (failed error)) s w v = ground arith
  deliver-Inv (power_answer (completed power)) s w v = ground arith
  deliver-Inv (power_answer (failed error)) s w v = ground arith

  step-Inv : {s t : Session N} → ◌⇒◌ page s t → Inv s → Inv t
  step-Inv (outer a s o) v = dispatch-Inv a s o v
  step-Inv (answer r s w) v = deliver-Inv r s w v

  -- In every session that a page comes to, whatever users do and in whatever order the answers come
  -- back, each spinner is shown only while a request that takes it away is in flight, a connected
  -- wallet has an address, and the token of the store is that of the storage.
  pub Reachable-Inv : {s : Session N} → Reachable page s → Inv s
  Reachable-Inv loaded = start-Inv
  Reachable-Inv (further before step) = step-Inv step (Reachable-Inv before)
