-- ===== src/Frontend/Session/Progress.antt =====
-- Answers come to an end, and the page with them to rest.
use soro_lend.Prelude.{ℕ, zero, suc, ◌+◌, ◌*◌, ltb, ◌≤◌, ◌<◌, Bool, true, false, ◌≡◌, arith}
use soro_lend.Runtime.{Number}
use soro_lend.Frontend.Reducers.{Storage}
use soro_lend.Frontend.Effects.{
  Requests, Answer, completed, failed, awaited, is_some, connect_answer, login_answer,
  markets_answer, portfolio_answer, transaction_answer, proposals_answer, vote_answer, power_answer,
}
use soro_lend.Frontend.Session.{Session, deliver}

abbrev one_if : Bool → ℕ
one_if true = 1
one_if false = 0

-- How many answers the requests in flight can lead to: a wallet that connects makes the page log in,
-- and a transaction that is done makes it load the portfolio.
abbrev pub rank : Requests → ℕ
rank r =
    2 * one_if r.connect
    + one_if (is_some r.login)
    + one_if r.markets
    + one_if (is_some r.portfolio)
    + 2 * one_if (is_some r.transaction)
    + one_if r.proposals
    + one_if (is_some r.vote)
    + one_if (is_some r.power)

module _ {N : Number} (page : Storage) where
  -- `n` answers, one after the other, with nothing from the user in between.
  pub data Answers : ℕ → Session N → Session N → Type 0 where
    done : {s : Session N} → Answers 0 s s
    next :
        {n : ℕ} {s t : Session N} (r : Answer N)
        → awaited s.requests r ≡ true
        → Answers n (deliver page r s) t
        → Answers (suc n) s t

  deliver-rank :
      (r : Answer N) (s : Session N)
      → awaited s.requests r ≡ true
      → rank (deliver page r s).requests < rank s.requests
  unfolding deliver
  deliver-rank (connect_answer (completed address)) s w = ground arith
  deliver-rank (connect_answer (failed error)) s w = ground arith
  deliver-rank (login_answer (completed pair)) s w = ground arith
  deliver-rank (login_answer (failed error)) s w = ground arith
  deliver-rank (markets_answer (completed markets)) s w = ground arith
  deliver-rank (markets_answer (failed error)) s w = ground arith
  deliver-rank (portfolio_answer (completed l)) s w = ground arith
  deliver-rank (portfolio_answer (failed error)) s w = ground arith
  deliver-rank (transaction_answer (completed position)) s w = ground arith
  deliver-rank (transaction_answer (failed error)) s w = ground arith
  deliver-rank (proposals_answer (completed proposals)) s w = ground arith
  deliver-rank (proposals_answer (failed error)) s w = ground arith
  deliver-rank (vote_answer (completed proposal)) s w = ground arith
  deliver-rank (vote_answer (failed error)) s w = ground arith
  deliver-rank (power_answer (completed power)) s w = ground arith
  deliver-rank (power_answer (failed error)) s w = ground arith

  -- Answers lead to at most `rank` further answers.
  pub Answers-rank :
      {n : ℕ} {s t : Session N} → Answers n s t → n + rank t.requests ≤ rank s.requests
  Answers-rank done = omega arith
  Answers-rank (next {n} {s} {t} r w rest) = omega (arith, deliver-rank r s w, Answers-rank rest)

  -- The server, the wallet and the network, as they choose the next answer.
  module _ (choose : Session N → Answer N) where
    -- Something in flight is answered, as long as there is anything.
    abbrev pub IsResponsive : Type 0
    IsResponsive = (s : Session N) → 0 < rank s.requests → awaited s.requests (choose s) ≡ true

    unfoldable pub drain : ℕ → Session N → Session N
    drain zero s = s
    drain (suc n) s = elim (ltb 0 (rank s.requests)) [
      | false ↦ s
      | true ↦ drain n (deliver page (choose s) s)
    ]

  -- Nothing is in flight, and no spinner is shown.
  pub record IsAtRest (s : Session N) : Type 0 where
    pub answered : rank s.requests ≡ 0
    pub auth_idle : s.state.auth.loading ≡ false
    pub markets_idle : s.state.markets.loading ≡ false
    pub portfolio_idle : s.state.portfolio.loading ≡ false
    pub transaction_idle : s.state.portfolio.transaction_pending ≡ false
    pub governance_idle : s.state.governance.loading ≡ false
