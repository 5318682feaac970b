-- ===== src/Lib.antt =====
-- SoroLend's backend and web client. Of the backend the lending, borrowing, collateral, liquidation
-- and governance services, the indexer, the price oracle, the analytics, the alerts, the sign-in and
-- the controllers, as functions on a database that is passed along; of the client its store, its
-- effects, its forms and services, and a page as it runs.
--
-- How the parts interact. Requests and timers call the services; a service reads and writes the
-- tables through TypeORM's repositories. The lending, borrowing and collateral services each keep one
-- table of positions, with a row for a user and an asset. The liquidation service writes the tables of
-- debts and of collateral, and the bot calls it. The indexer writes the tables of supplies and debts
-- from contract events. The oracle writes the prices that the health factors are computed from. The
-- services for governance, alerts and sign-in stand apart. The client keeps what it has read in a
-- store; its effects turn actions into requests, and their answers into further actions.
--
-- Which file models which code (paths below backend/src):
--   Schema: database/entities, a record for each entity, a data type for each union of texts.
--   Store: what the services use of a repository (`findOne`, `find`, `save`, `update`), the database,
--     and a method call as a function from a database to a result and a database. An exception is
--     an `err`; what was written before it stays written. Store/Positions has the laws of a table of
--     positions and the ledger of integers it stands for, Store/Natural the tables without negative
--     balances.
--   Runtime: numbers, exceptions and results. Text, Text/Decimal: texts, `BigInt(text)`, `toString`.
--   Accounts: the helpers findAssetByCode and findOrCreateUser of the services.
--   Valuation: the loops that add up the worth of positions, which four services share by copying.
--   Lending: modules/lending/lending.service.ts, Lending/Scheduler its lending.scheduler.ts.
--   Borrowing: modules/borrowing/borrowing.service.ts.
--   Collateral: modules/collateral/collateral.service.ts.
--   Liquidation: modules/liquidation/liquidation.service.ts, Liquidation/Bot its liquidation.bot.ts.
--   Governance: modules/governance/governance.service.ts.
--   Indexer: modules/indexer/event-processor.service.ts, Indexer/Poll its stellar-indexer.service.ts.
--   Oracle: modules/oracle/oracle-aggregator.service.ts and oracle.scheduler.ts, Oracle/Twap its
--     twap.service.ts.
--   Analytics: modules/analytics.
--   Notifications: modules/notifications/alert.service.ts and push.service.ts, Notifications/Email its
--     email.service.ts.
--   Auth: auth/auth.service.ts, guards/wallet-auth.guard.ts and strategies/jwt.strategy.ts.
--   Http: common/interceptors/transform.interceptor.ts and JSON values. Http/Filter:
--     common/filters/http-exception.filter.ts and common/pipes/validation.pipe.ts. Http/Requests: the
--     request types below modules and auth. Http/Controllers: the controllers; `serve` is one request,
--     and Http/Controllers/History runs requests one after the other. Http/Routes: from the address and
--     the body of a POST call to the request, below the prefix that main.ts sets.
--   System: the backend as it runs. A step is a request, a timer, a liquidation or a poll with its
--     events, run to its end; `replay` runs a history of steps, in any order.
--   Gateways: what the three gateways below modules emit. Cache: the `retryStrategy` of
--     cache/cache.module.ts.
--   Config: config/config.module.ts, and the options that database/database.module.ts,
--     cache/cache.module.ts, auth/auth.module.ts and main.ts read.
--   Wiring: the `*.module.ts` files and the constructors: what modules provide and classes ask for.
-- And below frontend/src/app:
--   Frontend/Models, Actions, Reducers, Effects, Selectors: core/models and store.
--   Frontend/Session: a page as it runs. Its state is the store, the local storage and the requests in
--     flight, at most one for each effect, the latest, as `switchMap` keeps it; a step is an action from
--     outside or the answer to any request in flight, so that answers come in any order. Session/Steps
--     takes the actions that follow one another one by one.
--   Frontend/Html, Pages: the templates of features, shared, layout and app.component.ts, as functions
--     to elements, texts and buttons, and app.routes.ts.
--   Frontend/Forms, Badge, Components: what features, shared and layout compute and dispatch.
--     Frontend/Wallet, Login, Api, Sockets: core/services.
-- A method keeps its name in snake case. The other files prove what the module above them does;
-- Examples has a world of list tables in which every law holds, and each theorem at an input.
--
-- Parameters. JavaScript's numbers (`Number`), the tables (`Table`), Redis, the random nonce, the
-- signer of tokens, the clock, the check of the environment, `apiUrl` and Angular's
-- pipes are parameters.
-- Theorems that need to know what a table gives back after a write take the laws of that table as a
-- hypothesis: the unique index, that a row is found under the key it was saved under, and that a
-- numeric column gives back the number that was written, though not always the same text. `value`
-- is the integer that a text of such a column stands for, if it stands for one.
--
-- Amounts are texts. `bigint` is `BigInt(text)`, defined here, with `none` for its SyntaxError, so a
-- text such as 50.000000000000000000 makes a method throw. The decimal digits of n are printed on
-- fuel n + 1, and a number has fewer digits than that. A session of the client is drained on fuel
-- `rank`, which every answer lowers, and the actions that follow one
-- another at once are run on fuel 2: one action is followed by another, and that by none.
--
-- Not modelled: interleavings of two calls at the server (every call runs alone), logging, the
-- dates that the database fills in, the lists of related rows of an entity, the matching of paths
-- but for the POST routes of transactions and logins, the checks of class-validator (the request
-- types are data), NestJS and ioredis, Angular's change detection and tracking, and the contracts
-- in Rust, which the backend does not call.
pub mod Prelude
pub mod Text
pub mod Runtime
pub mod Schema
pub mod Store
pub mod Accounts
pub mod Lending
pub mod Valuation
pub mod Borrowing
pub mod Collateral
pub mod Liquidation
pub mod Governance
pub mod Indexer
pub mod Oracle
pub mod Analytics
pub mod Notifications
pub mod Auth
pub mod Cache
pub mod Config
pub mod Gateways
pub mod Http
pub mod Frontend
pub mod Wiring
pub mod System
pub mod Examples
