-- ===== src/Frontend/Session/Races.antt =====
-- Orders of events that the page does not expect.
use soro_lend.Prelude.{some, true, false, ◌≡◌, refl}
use soro_lend.Text.{Text}
use soro_lend.Runtime.{Number}
use soro_lend.Frontend.Actions.{logout}
use soro_lend.Frontend.Reducers.{Storage}
use soro_lend.Frontend.Effects.{
  Loaded, completed, failed, connect_answer, login_answer, portfolio_answer,
}
use soro_lend.Frontend.Session.{Session, dispatch, deliver}

module _ {N : Number} (page : Storage) (s : Session N) where
  -- A portfolio that is loaded while a transaction is in flight takes the transaction's spinner away,
  -- though the transaction is still in flight.
  pub portfolio_clears_pending :
      (l : Loaded N)
      → ((deliver page (portfolio_answer (completed l)) s).state.portfolio.transaction_pending
          ≡ false)
        × ((deliver page (portfolio_answer (completed l)) s).requests.transaction
            ≡ s.requests.transaction)
  unfolding deliver
  portfolio_clears_pending l = (refl, refl)

  -- A logout does not call off a login in flight: when its answer comes, the wallet is connected again
  -- and the token is in the store and the storage.
  pub login_survives_logout :
      (address jwt : Text) {waiting : Text}
      → s.requests.login ≡ some waiting
      → let after = dispatch page logout s in
        let t = deliver page (login_answer (completed (address, jwt))) after in
        (after.requests.login ≡ some waiting)
        × (t.state.auth.connected ≡ true)
        × (t.state.auth.jwt ≡ some jwt)
        × (t.storage.jwt ≡ some jwt)
  unfolding deliver
  login_survives_logout address jwt h = (h, refl, refl, refl)

  -- Where another wallet is connected and its login fails, the address is that of the new wallet and the
  -- token still that of the old one.
  pub failed_login_keeps_token :
      (address error : Text)
      → let t =
          deliver page
            (login_answer (failed error))
            (deliver page (connect_answer (completed address)) s) in
        (t.state.auth.address ≡ some address)
        × (t.state.auth.connected ≡ true)
        × (t.state.auth.jwt ≡ s.state.auth.jwt)
  unfolding deliver
  failed_login_keeps_token address error = (refl, refl, refl)
