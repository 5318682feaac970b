-- ===== src/Frontend/Session.antt =====
-- A page of the client as it runs: the store, the local storage and the requests in flight, and the
-- steps between them. What users do and what comes back are interleaved in any order.
pub mod Invariant
pub mod Progress
pub mod Steps
pub mod Races
use soro_lend.Prelude.{ℕ, zero, suc, Option, none, some, Bool, true, false, ◌≡◌, refl}
use soro_lend.Text.{Text}
use soro_lend.Runtime.{Number}
use soro_lend.Frontend.Actions.{
  Action, connect_wallet, connect_wallet_success, connect_wallet_failure, login, login_success,
  login_failure, logout, load_markets, load_markets_success, load_markets_failure, load_portfolio,
  load_portfolio_success, load_portfolio_failure, submit_transaction, submit_transaction_success,
  submit_transaction_failure, price_stream_updated, load_proposals, load_proposals_success,
  load_proposals_failure, cast_vote, cast_vote_success, cast_vote_failure, load_voting_power,
  load_voting_power_success,
}
use soro_lend.Frontend.Reducers.{Storage, State, initial_state, reducer}
use soro_lend.Frontend.Effects.{
  Requests, no_requests, Answer, opened, awaited, closed, answered, stored, refresh,
}

pub record Session (N : Number) : Type 0 where
  pub state : State N
  pub storage : Storage
  pub requests : Requests

-- The actions that components and the price stream may dispatch; the others come from effects. No
-- component dispatches `login` and `logout` as yet.
abbrev pub is_outer : {N : Number} → Action N → Bool
is_outer connect_wallet = true
is_outer (login address) = true
is_outer logout = true
is_outer load_markets = true
is_outer (load_portfolio address) = true
is_outer (submit_transaction t) = true
is_outer (price_stream_updated prices) = true
is_outer load_proposals = true
is_outer (cast_vote ballot) = true
is_outer (load_voting_power address) = true
is_outer _ = false

module _ {N : Number} where
  -- The page is loaded: `page` is what the storage holds then.
  abbrev pub start : Storage → Session N
  start page = record { state = initial_state N page; storage = page; requests = no_requests }

  module _ (page : Storage) where
    -- One action, at the reducers first and then at the effects.
    unfoldable pub receive : Action N → Session N → Session N
    unfolding reducer stored opened
    receive a s = record {
      state = reducer N page s.state a;
      storage = stored s.storage a;
      requests = opened s.requests a;
    }

    -- An action, the one that follows it at once, the one that follows that, and so on, at most `n` of
    -- them.
    unfoldable pub followed : ℕ → Option (Action N) → Session N → Session N
    unfolding receive refresh
    followed n none s = s
    followed zero (some a) s = s
    followed (suc n) (some a) s = followed n (refresh a) (receive a s)

    -- An action with all that follow it at once; no chain of them is longer than two.
    unfoldable pub dispatch : Action N → Session N → Session N
    unfolding followed
    dispatch a s = followed 2 (some a) s

    -- A request is answered: it is no longer in flight, and its action is dispatched.
    unfoldable pub deliver : Answer N → Session N → Session N
    unfolding dispatch answered
    deliver answer s =
        dispatch (answered s.requests answer) (record s { requests = closed s.requests answer })

    infix 40 ◌⇒◌
    pub data ◌⇒◌ : Session N → Session N → Type 0 where
      outer : (a : Action N) (s : Session N) → is_outer a ≡ true → s ⇒ dispatch a s
      answer : (r : Answer N) (s : Session N) → awaited s.requests r ≡ true → s ⇒ deliver r s

    -- The sessions that a page comes to.
    pub data Reachable : Session N → Type 0 where
      loaded : Reachable (start page)
      further : {s t : Session N} → Reachable s → s ⇒ t → Reachable t
