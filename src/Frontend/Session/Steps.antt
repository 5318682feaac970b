-- ===== src/Frontend/Session/Steps.antt =====
-- The page in single steps: an action goes through the reducers and the effects, the action that
-- follows it at once, if any, is next, and only then does an answer come in.
use soro_lend.Prelude.{ℕ, suc, ◌+◌, ◌*◌, Bool, true, false, Option, none, some, ◌≡◌}
use soro_lend.Runtime.{Number}
use soro_lend.Frontend.Actions.{
  Action, connect_wallet, connect_wallet_success, login, load_markets, load_portfolio,
  submit_transaction, submit_transaction_success, load_proposals, cast_vote, load_voting_power,
}
use soro_lend.Frontend.Reducers.{Storage}
use soro_lend.Frontend.Effects.{Requests, Answer, awaited, closed, answered, refresh, is_some}
use soro_lend.Frontend.Session.{Session, receive}

-- The action that is next, and the session.
pub record Point (N : Number) : Type 0 where
  pub next : Option (Action N)
  pub session : Session N

abbrev count : Bool → ℕ
count true = 1
count false = 0

-- How many steps the requests in flight can still lead to: an answer, the action it becomes, and what
-- that action starts in turn.
abbrev pub due : Requests → ℕ
due r =
    4 * count r.connect
    + 2 * count (is_some r.login)
    + 2 * count r.markets
    + 2 * count (is_some r.portfolio)
    + 5 * count (is_some r.transaction)
    + 2 * count r.proposals
    + 2 * count (is_some r.vote)
    + 2 * count (is_some r.power)

module _ {N : Number} where
  -- The step of an action, and what it starts.
  abbrev pub cost : Action N → ℕ
  cost connect_wallet = 5
  cost (connect_wallet_success address) = 3
  cost (login address) = 3
  cost load_markets = 3
  cost (load_portfolio address) = 3
  cost (submit_transaction t) = 6
  cost (submit_transaction_success address) = 4
  cost load_proposals = 3
  cost (cast_vote ballot) = 3
  cost (load_voting_power address) = 3
  cost _ = 1

  abbrev pub cost_next : Option (Action N) → ℕ
  cost_next none = 0
  cost_next (some a) = cost a

  abbrev pub left : Point N → ℕ
  left p = cost_next p.next + due p.session.requests

  module _ (page : Storage) where
    infix 40 ◌⟼◌
    pub data ◌⟼◌ : Point N → Point N → Type 0 where
      acts :
          (a : Action N) (s : Session N)
          → record { next = some a; session = s }
            ⟼ record { next = refresh a; session = receive page a s }
      comes :
          (r : Answer N) (s : Session N)
          → awaited s.requests r ≡ true
          → record { next = none; session = s } ⟼ record {
            next = some (answered s.requests r);
            session = record s { requests = closed s.requests r };
          }

    -- `n` steps, with nothing from the user in between.
    pub data Run : ℕ → Point N → Point N → Type 0 where
      done : {p : Point N} → Run 0 p p
      and_then : {n : ℕ} {p q r : Point N} → p ⟼ q → Run n q r → Run (suc n) p r
