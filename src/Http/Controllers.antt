-- ===== src/Http/Controllers.antt =====
-- The controllers (backend/src, the `*.controller.ts` files): a constructor for each route, and what
-- each hands to its service. A body has passed the checks of `Requests`.
pub mod Reads
pub mod Frame
pub mod Ballots
pub mod Failures
pub mod Solvency
pub mod History
use soro_lend.Prelude.{ℕ, ◌-◌, Bool, true, false, Option, none, some, List}
use soro_lend.Text.{Text, codes, truthy}
use soro_lend.Runtime.{Result, ok, err}
use soro_lend.Schema.{SupplyPosition, BorrowPosition, CollateralPosition, Proposal, Vote}
use soro_lend.Store.{Env, Db, Action, ◌>>=◌, pure, gets}
use soro_lend.Lending
use soro_lend.Borrowing
use soro_lend.Collateral
use soro_lend.Governance
use soro_lend.Analytics
use soro_lend.Auth
use soro_lend.Auth.{Redis, Settings, Challenge}

-- SupplyDto, WithdrawDto, BorrowDto, RepayDto, DepositCollateralDto and WithdrawCollateralDto
pub record PositionDto : Type 0 where
  pub public_key : Text
  pub asset_code : Text
  pub amount : Text

pub data LendingRequest : Type 0 where
  get_markets : LendingRequest
  get_market : Text → LendingRequest
  supply withdraw : PositionDto → LendingRequest
  get_positions : Text → LendingRequest

pub data BorrowingRequest : Type 0 where
  borrow repay : PositionDto → BorrowingRequest
  get_positions get_health : Text → BorrowingRequest

pub data CollateralRequest : Type 0 where
  deposit withdraw : PositionDto → CollateralRequest
  get_portfolio get_max_borrow : Text → CollateralRequest

pub data GovernanceRequest : Type 0 where
  get_proposals : GovernanceRequest
  get_proposal : Text → GovernanceRequest
  create_proposal : Governance.NewProposal → GovernanceRequest
  cast_vote : Governance.Ballot → GovernanceRequest
  get_voting_power activate_proposal finalize_proposal execute_proposal : Text → GovernanceRequest

pub data AnalyticsRequest : Type 0 where
  get_tvl : AnalyticsRequest
  get_tvl_by_asset : Text → AnalyticsRequest
  -- the asset, the start and the end
  get_apy_history : Text → Option Text → Option Text → AnalyticsRequest
  get_protocol_stats : AnalyticsRequest
  get_user_stats : Text → AnalyticsRequest

pub data AuthRequest : Type 0 where
  challenge : Text → AuthRequest
  -- the key and the signature
  verify : Text → Text → AuthRequest

pub data Request : Type 0 where
  lending : LendingRequest → Request
  borrowing : BorrowingRequest → Request
  collateral : CollateralRequest → Request
  governance : GovernanceRequest → Request
  analytics : AnalyticsRequest → Request
  auth : AuthRequest → Request
  health ready : Request

-- What a handler returns.
pub data Reply : Type 0 where
  markets : List Lending.Market → Reply
  market : Lending.Market → Reply
  supply_position : SupplyPosition → Reply
  supply_views : List Lending.SupplyView → Reply
  borrow_position : BorrowPosition → Reply
  borrow_views : List Borrowing.BorrowView → Reply
  health_report : Borrowing.Health → Reply
  collateral_position : CollateralPosition → Reply
  collateral_views : List Collateral.CollateralView → Reply
  max_borrow : Collateral.MaxBorrow → Reply
  proposals : List Proposal → Reply
  proposal : Proposal → Reply
  vote : Vote → Reply
  voting_power : Text → Reply
  total_value : Analytics.TotalValue → Reply
  asset_tvl : Analytics.AssetTvl → Reply
  apy_history : List Analytics.ApyEntry → Reply
  global_stats : Analytics.GlobalStats → Reply
  user_stats : Analytics.UserStats → Reply
  challenge_issued : Challenge → Reply
  access_token : Text → Reply
  status : Text → Reply

-- What a call finds outside the program: the time, the random nonce, how the driver compares a numeric
-- column with 0, and `new Date(text)` in milliseconds.
pub record Outside : Type 0 where
  pub now : ℕ
  pub nonce : Text
  pub is_positive : Text → Bool
  pub date_of : Text → ℕ

module _ (E : Env) where
  abbrev pub reply : {A : Type 0} → (A → Reply) → Action E A → Action E Reply
  reply f m = do a ← m; pure (f a)

  -- LendingController
  unfoldable pub serve_lending : LendingRequest → Action E Reply
  serve_lending get_markets = reply markets (gets (Lending.get_markets E))
  serve_lending (get_market asset_code) = reply market (Lending.get_market E asset_code)
  serve_lending (supply dto) =
      reply supply_position (Lending.supply E dto.public_key dto.asset_code dto.amount)
  serve_lending (withdraw dto) =
      reply supply_position (Lending.withdraw E dto.public_key dto.asset_code dto.amount)
  serve_lending (get_positions address) =
      reply supply_views (gets (Lending.get_positions E address))

  -- BorrowingController
  unfoldable pub serve_borrowing : BorrowingRequest → Action E Reply
  serve_borrowing (borrow dto) =
      reply borrow_position (Borrowing.borrow E dto.public_key dto.asset_code dto.amount)
  serve_borrowing (repay dto) =
      reply borrow_position (Borrowing.repay E dto.public_key dto.asset_code dto.amount)
  serve_borrowing (get_positions address) =
      reply borrow_views (gets (Borrowing.get_positions E address))
  serve_borrowing (get_health address) = reply health_report (Borrowing.get_health E address)

  -- CollateralController
  unfoldable pub serve_collateral : CollateralRequest → Action E Reply
  serve_collateral (deposit dto) =
      reply collateral_position (Collateral.deposit E dto.public_key dto.asset_code dto.amount)
  serve_collateral (withdraw dto) =
      reply collateral_position (Collateral.withdraw E dto.public_key dto.asset_code dto.amount)
  serve_collateral (get_portfolio address) =
      reply collateral_views (gets (Collateral.get_portfolio E address))
  serve_collateral (get_max_borrow address) =
      reply max_borrow (gets (Collateral.get_max_borrow E address))

  -- GovernanceController
  unfoldable pub serve_governance : ℕ → GovernanceRequest → Action E Reply
  serve_governance now get_proposals = reply proposals (gets (Governance.get_proposals E))
  serve_governance now (get_proposal id) = reply proposal (Governance.get_proposal E id)
  serve_governance now (create_proposal dto) = reply proposal (Governance.create_proposal E dto)
  serve_governance now (cast_vote dto) = reply vote (Governance.cast_vote E dto)
  serve_governance now (get_voting_power address) =
      reply voting_power (gets (Governance.get_voting_power E address))
  serve_governance now (activate_proposal id) = reply proposal (Governance.activate_proposal E id)
  serve_governance now (finalize_proposal id) = reply proposal (Governance.finalize_proposal E id)
  serve_governance now (execute_proposal id) = reply proposal (Governance.execute_proposal E now id)

  -- `start ? new Date(start) : new Date(Date.now() - 7 * 24 * 60 * 60 * 1000)`, and the same for `end`
  abbrev pub date_or : (Text → ℕ) → ℕ → Option Text → ℕ
  date_or date_of otherwise none = otherwise
  date_or date_of otherwise (some t) = date_of t

  -- AnalyticsController
  unfoldable pub serve_analytics : Outside → AnalyticsRequest → Action E Reply
  serve_analytics o get_tvl = reply total_value (gets (Analytics.get_total_value_locked E))
  serve_analytics o (get_tvl_by_asset code) = reply asset_tvl (Analytics.get_tvl_by_asset E code)
  serve_analytics o (get_apy_history asset_id start end_) = reply apy_history (
      gets (
        Analytics.get_apy_history E asset_id (date_or o.date_of (o.now - 604800000) (truthy start))
          (date_or o.date_of o.now (truthy end_))))
  serve_analytics o get_protocol_stats =
      reply global_stats (gets (Analytics.get_global_stats E o.is_positive))
  serve_analytics o (get_user_stats address) =
      reply user_stats (gets (Analytics.get_user_stats E address))

module _ (R : Redis) (s : Settings) (sign : Text → Text) where
  abbrev answer_token : Result Text × R.Cache → Result Reply × R.Cache
  answer_token (ok token, cache) = (ok (access_token token), cache)
  answer_token (err e, cache) = (err e, cache)

  -- AuthController
  unfoldable pub serve_auth : Outside → AuthRequest → R.Cache → Result Reply × R.Cache
  serve_auth o (challenge public_key) cache =
      let (c, cache') = Auth.generate_challenge R s sign o.now o.nonce public_key cache in
      (ok (challenge_issued c), cache')
  serve_auth o (verify public_key signature) cache =
      answer_token (Auth.verify_signature R s sign o.now public_key signature cache)

  module _ (E : Env) where
    abbrev pub beside : Result Reply × Db E → R.Cache → Result Reply × (Db E × R.Cache)
    beside (r, db) cache = (r, (db, cache))

    abbrev pub beside_db : Db E → Result Reply × R.Cache → Result Reply × (Db E × R.Cache)
    beside_db db (r, cache) = (r, (db, cache))

    -- One request, on the database and Redis.
    unfoldable pub serve : Outside → Request → Db E × R.Cache → Result Reply × (Db E × R.Cache)
    unfolding serve_lending serve_borrowing serve_collateral serve_governance serve_analytics
        serve_auth
    serve o (lending r) (db, cache) = beside (serve_lending E r db) cache
    serve o (borrowing r) (db, cache) = beside (serve_borrowing E r db) cache
    serve o (collateral r) (db, cache) = beside (serve_collateral E r db) cache
    serve o (governance r) (db, cache) = beside (serve_governance E o.now r db) cache
    serve o (analytics r) (db, cache) = beside (serve_analytics E o r db) cache
    serve o (auth r) (db, cache) = beside_db db (serve_auth o r cache)
    serve o health (db, cache) = (ok (status (codes "ok")), (db, cache))
    serve o ready (db, cache) = (ok (status (codes "ready")), (db, cache))
