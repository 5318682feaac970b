-- ===== src/Wiring.antt =====
-- How the backend is put together (backend/src: the `*.module.ts` files, and the constructors of what
-- they provide): the modules with what they import, provide and export, and what each class asks for.
-- How NestJS makes the instances is not modelled.
pub mod Modules
pub mod Needs
use soro_lend.Prelude.{List}

-- The entities, by their tables.
pub data Entity : Type 0 where
  user asset supply_position borrow_position collateral_position market_snapshot : Entity
  liquidation_event price_feed proposal vote : Entity

-- The classes that modules provide or have as controllers.
pub data Class : Type 0 where
  auth_service jwt_strategy auth_controller : Class
  lending_service lending_gateway lending_scheduler lending_controller : Class
  borrowing_service borrowing_controller collateral_service collateral_controller : Class
  liquidation_service liquidation_bot liquidation_gateway : Class
  oracle_aggregator_service twap_service oracle_scheduler : Class
  stellar_indexer_service event_processor_service indexer_gateway : Class
  governance_service governance_controller : Class
  email_service push_service alert_service : Class
  tvl_service apy_history_service protocol_stats_service analytics_controller : Class
  health_controller : Class

-- What a constructor asks for: `@InjectRepository(Entity)`, a class of the program, `REDIS_CLIENT`, or a
-- service of NestJS.
pub data Token : Type 0 where
  repository : Entity → Token
  instance_of : Class → Token
  redis_client jwt_service config_service : Token

pub data ModuleName : Type 0 where
  app database cache auth lending borrowing collateral liquidation oracle indexer governance :
      ModuleName
  notifications analytics : ModuleName

-- A module: the program's modules that it imports, the entities of its `TypeOrmModule.forFeature`, what
-- the modules of libraries that it imports export, what it provides, its controllers, and what it
-- exports.
pub record ModuleDef : Type 0 where
  pub imports : List ModuleName
  pub entities : List Entity
  pub from_libraries : List Token
  pub providers : List Token
  pub controllers : List Class
  pub exports : List Token
