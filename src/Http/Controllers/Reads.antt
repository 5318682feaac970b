-- ===== src/Http/Controllers/Reads.antt =====
-- GET requests.
use soro_lend.Prelude.{
  ℕ, ◌^◌, Bool, true, false, List, [], ◌∷◌, ◌≡◌, refl, ap, arith, Option, none, some, map,
}
use soro_lend.Prelude.Int.{ℤ, pos, ◌+ℤ◌, ◌*ℤ◌}
use soro_lend.Text.{Text}
use soro_lend.Schema.{Asset, User}
use soro_lend.Text.Decimal.{bigint}
use soro_lend.Runtime.{Result, ok, err, syntax_error}
use soro_lend.Store.{
  Env, Db, Action, ◌>>=◌, pure, or_raise, user_by_key, borrows_of, collaterals_of,
}
use soro_lend.Auth.{Redis, Settings}
use soro_lend.Borrowing
use soro_lend.Lending
use soro_lend.Analytics
use soro_lend.Governance
use soro_lend.Http.Controllers.{
  Request, Reply, reply, market, health_report, proposal, asset_tvl, lending, borrowing, collateral,
  governance, analytics, auth, health, ready, LendingRequest, BorrowingRequest, CollateralRequest,
  GovernanceRequest, AnalyticsRequest, Outside, serve, serve_lending, serve_borrowing,
  serve_collateral, serve_governance, serve_analytics,
}

-- The routes under a `@Get` decorator.
abbrev pub is_get : Request → Bool
is_get (lending (LendingRequest.supply dto)) = false
is_get (lending (LendingRequest.withdraw dto)) = false
is_get (borrowing (BorrowingRequest.borrow dto)) = false
is_get (borrowing (BorrowingRequest.repay dto)) = false
is_get (collateral (CollateralRequest.deposit dto)) = false
is_get (collateral (CollateralRequest.withdraw dto)) = false
is_get (governance (GovernanceRequest.create_proposal dto)) = false
is_get (governance (GovernanceRequest.cast_vote dto)) = false
is_get (governance (GovernanceRequest.activate_proposal id)) = false
is_get (governance (GovernanceRequest.finalize_proposal id)) = false
is_get (governance (GovernanceRequest.execute_proposal id)) = false
is_get (auth r) = false
is_get _ = true

module _ (E : Env) where
  keeps_after :
      {A B : Type 0} (o : Result A × Db E) (f : A → Action E B) (db : Db E)
      → o.1 ≡ db
      → ((a : A) → (f a db).1 ≡ db)
      → (elim o.0 as (λ _. Result B × Db E) [ ok a ↦ f a o.1 | err e ↦ (err e, o.1) ]).1 ≡ db
  keeps_after (ok a, db₁) f db h k = rw h (k a)
  keeps_after (err e, db₁) f db h k = h

  -- A chain of steps that keep the database keeps it.
  pub bind_keeps :
      {A B : Type 0} (m : Action E A) (f : A → Action E B) (db : Db E)
      → (m db).1 ≡ db
      → ((a : A) → (f a db).1 ≡ db)
      → ((m >>= f) db).1 ≡ db
  bind_keeps m f db h k = keeps_after (m db) f db h k

  reply_keeps :
      {A : Type 0} (f : A → Reply) (m : Action E A) (db : Db E)
      → (m db).1 ≡ db
      → (reply E f m db).1 ≡ db
  reply_keeps f m db h = bind_keeps m (λ a. pure (f a)) db h (λ a. refl)

  -- Two texts are read as numbers.
  steps :
      (price amount : Option ℤ) (k : ℤ → ℤ → Action E ℤ) (db : Db E)
      → ((p a : ℤ) → (k p a db).1 ≡ db)
      → ((or_raise syntax_error price >>= λ p. or_raise syntax_error amount >>= k p) db).1 ≡ db
  steps none amount k db h = refl
  steps (some p) none k db h = refl
  steps (some p) (some a) k db h = h p a

  usd_total_keeps :
      (total : ℤ) (ps : List (Text × Asset)) (db : Db E)
      → (Borrowing.usd_total E total ps db).1 ≡ db
  unfolding Borrowing.usd_total
  usd_total_keeps total [] db = refl
  usd_total_keeps total (p ∷ ps) db =
      steps (Borrowing.scaled_price p.1.oracle_price) (bigint p.0)
        (λ price amount.
          Borrowing.usd_total E (total +ℤ Borrowing.div_ℤ (amount *ℤ price) (10 ^ p.1.decimals)) ps)
        db
        (λ price amount.
          usd_total_keeps (total +ℤ Borrowing.div_ℤ (amount *ℤ price) (10 ^ p.1.decimals)) ps db)

  health_of_keeps : (user : Option User) (db : Db E) → (Borrowing.health_of E user db).1 ≡ db
  health_of_keeps none db = refl
  health_of_keeps (some u) db = ground (
    arith,
    usd_total_keeps (pos 0) (map (λ (p, a). (p.amount, a)) (collaterals_of E u.id db)) db,
    usd_total_keeps (pos 0) (map (λ (p, a). (p.amount, a)) (borrows_of E u.id db)) db,
  )

  get_health_keeps : (address : Text) (db : Db E) → (Borrowing.get_health E address db).1 ≡ db
  unfolding Borrowing.get_health
  get_health_keeps address db = health_of_keeps (user_by_key E address db) db

  get_market_keeps : (code : Text) (db : Db E) → (Lending.get_market E code db).1 ≡ db
  unfolding Lending.get_market
  get_market_keeps code db = ground arith

  get_tvl_keeps : (code : Text) (db : Db E) → (Analytics.get_tvl_by_asset E code db).1 ≡ db
  unfolding Analytics.get_tvl_by_asset
  get_tvl_keeps code db = ground arith

  pub get_proposal_keeps : (id : Text) (db : Db E) → (Governance.get_proposal E id db).1 ≡ db
  unfolding Governance.get_proposal
  get_proposal_keeps id db = ground arith

  pub lending_keeps :
      (r : LendingRequest) (db : Db E) → is_get (lending r) ≡ true → (serve_lending E r db).1 ≡ db
  unfolding serve_lending
  lending_keeps LendingRequest.get_markets db h = refl
  lending_keeps (LendingRequest.get_market code) db h =
      reply_keeps market (Lending.get_market E code) db (get_market_keeps code db)
  lending_keeps (LendingRequest.get_positions address) db h = refl
  lending_keeps _ db h = cc

  pub borrowing_keeps :
      (r : BorrowingRequest) (db : Db E)
      → is_get (borrowing r) ≡ true
      → (serve_borrowing E r db).1 ≡ db
  unfolding serve_borrowing
  borrowing_keeps (BorrowingRequest.get_positions address) db h = refl
  borrowing_keeps (BorrowingRequest.get_health address) db h =
      reply_keeps health_report (Borrowing.get_health E address) db (get_health_keeps address db)
  borrowing_keeps _ db h = cc

  pub collateral_keeps :
      (r : CollateralRequest) (db : Db E)
      → is_get (collateral r) ≡ true
      → (serve_collateral E r db).1 ≡ db
  unfolding serve_collateral
  collateral_keeps (CollateralRequest.get_portfolio address) db h = refl
  collateral_keeps (CollateralRequest.get_max_borrow address) db h = refl
  collateral_keeps _ db h = cc

  pub governance_keeps :
      (now : ℕ) (r : GovernanceRequest) (db : Db E)
      → is_get (governance r) ≡ true
      → (serve_governance E now r db).1 ≡ db
  unfolding serve_governance
  governance_keeps now GovernanceRequest.get_proposals db h = refl
  governance_keeps now (GovernanceRequest.get_proposal id) db h =
      reply_keeps proposal (Governance.get_proposal E id) db (get_proposal_keeps id db)
  governance_keeps now (GovernanceRequest.get_voting_power address) db h = refl
  governance_keeps now _ db h = cc

  pub analytics_keeps :
      (o : Outside) (r : AnalyticsRequest) (db : Db E) → (serve_analytics E o r db).1 ≡ db
  unfolding serve_analytics
  analytics_keeps o AnalyticsRequest.get_tvl db = refl
  analytics_keeps o (AnalyticsRequest.get_tvl_by_asset code) db =
      reply_keeps asset_tvl (Analytics.get_tvl_by_asset E code) db (get_tvl_keeps code db)
  analytics_keeps o (AnalyticsRequest.get_apy_history asset_id start end_) db = refl
  analytics_keeps o AnalyticsRequest.get_protocol_stats db = refl
  analytics_keeps o (AnalyticsRequest.get_user_stats address) db = refl

-- Every GET request leaves the database and Redis as they were, whether it succeeds or fails.
pub serve_get :
    (R : Redis) (s : Settings) (sign : Text → Text) (E : Env) (o : Outside) (r : Request)
    (db : Db E) (cache : R.Cache)
    → is_get r ≡ true
    → (serve R s sign E o r (db, cache)).1 ≡ (db, cache)
unfolding serve
serve_get R s sign E o (lending r) db cache h = ap (λ d. (d, cache)) (lending_keeps E r db h)
serve_get R s sign E o (borrowing r) db cache h = ap (λ d. (d, cache)) (borrowing_keeps E r db h)
serve_get R s sign E o (collateral r) db cache h = ap (λ d. (d, cache)) (collateral_keeps E r db h)
serve_get R s sign E o (governance r) db cache h =
    ap (λ d. (d, cache)) (governance_keeps E o.now r db h)
serve_get R s sign E o (analytics r) db cache h = ap (λ d. (d, cache)) (analytics_keeps E o r db)
serve_get R s sign E o (auth r) db cache h = cc
serve_get R s sign E o health db cache h = refl
serve_get R s sign E o ready db cache h = refl
