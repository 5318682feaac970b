-- ===== src/System.antt =====
-- The backend as it runs: requests, timers, liquidations and contract events, one after the other in
-- any order. A step is one handler run to its end (backend/src: the controllers; the `@Cron` methods
-- of modules/lending/lending.scheduler.ts, modules/liquidation/liquidation.bot.ts,
-- modules/oracle/oracle.scheduler.ts and modules/indexer/stellar-indexer.service.ts).
pub mod Timers
pub mod Prices
pub mod Solvency
pub mod Proposals
pub mod States
use soro_lend.Prelude.{ℕ, List, [], ◌∷◌}
use soro_lend.Text.{Text}
use soro_lend.Store.{Env, Db}
use soro_lend.Auth.{Redis, Settings}
use soro_lend.Lending.Scheduler.{sync_interest_accrual}
use soro_lend.Liquidation.{liquidate}
use soro_lend.Liquidation.Bot.{scan_and_liquidate}
use soro_lend.Indexer.{IndexedEvent}
use soro_lend.Indexer.Poll.{index_events, snapshot_markets}
use soro_lend.Oracle.{refresh_prices}
use soro_lend.Http.Controllers.{Request, Outside, serve}

-- What the process holds: the database, Redis, and the block that the indexer polls from next.
pub record Server (E : Env) (R : Redis) : Type 0 where
  pub db : Db E
  pub cache : R.Cache
  pub block : ℕ

pub data Happening : Type 0 where
  request : Outside → Request → Happening
  -- a call of LiquidationService.liquidate: the liquidator's key, the borrower's id and the codes
  liquidation : ℕ → Text → Text → Text → Text → Happening
  -- the timers; a number is the time
  scan refresh : ℕ → Happening
  accrual snapshot : Happening
  -- a poll that has fetched these events; the stub of `fetchContractEvents` fetches none
  poll : List IndexedEvent → Happening

module _ (R : Redis) (s : Settings) (sign : Text → Text) (E : Env) where
  unfoldable pub happen : Happening → Server E R → Server E R
  happen (request o r) v =
      let (db, cache) = (serve R s sign E o r (v.db, v.cache)).1 in
      record v { db = db; cache = cache }
  happen (liquidation now key id debt_code collateral_code) v = record v {
    db = (liquidate E now key id debt_code collateral_code v.db).1;
  }
  happen (scan now) v = record v { db = (scan_and_liquidate E now v.db).1 }
  happen (refresh now) v = record v { db = refresh_prices E now v.db }
  happen accrual v = record v { db = (sync_interest_accrual E v.db).1 }
  happen snapshot v = record v { db = snapshot_markets E v.db }
  happen (poll events) v =
      let (block, _, db) = index_events E v.block events v.db in record v { db = db; block = block }

  -- A history, the first happening first.
  unfoldable pub replay : List Happening → Server E R → Server E R
  unfolding happen
  replay [] v = v
  replay (h ∷ hs) v = replay hs (happen h v)
