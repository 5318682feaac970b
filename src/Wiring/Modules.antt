-- ===== src/Wiring/Modules.antt =====
-- The modules as they are declared (backend/src).
use soro_lend.Prelude.{List, [], ◌∷◌}
use soro_lend.Wiring.{
  Entity, user, asset, supply_position, borrow_position, collateral_position, market_snapshot,
  liquidation_event, price_feed, proposal, vote, auth_service, jwt_strategy, auth_controller,
  lending_service, lending_gateway, lending_scheduler, lending_controller, borrowing_service,
  borrowing_controller, collateral_service, collateral_controller, liquidation_service,
  liquidation_bot, liquidation_gateway, oracle_aggregator_service, twap_service, oracle_scheduler,
  stellar_indexer_service, event_processor_service, indexer_gateway, governance_service,
  governance_controller, email_service, push_service, alert_service, tvl_service,
  apy_history_service, protocol_stats_service, analytics_controller, health_controller, Token,
  repository, instance_of, redis_client, jwt_service, ModuleName, app, database, cache, auth,
  lending, borrowing, collateral, liquidation, oracle, indexer, governance, notifications,
  analytics, ModuleDef,
}

-- `entities` of database.module.ts
abbrev pub entities : List Entity
entities =
    user ∷ asset ∷ supply_position ∷ borrow_position ∷ collateral_position ∷ market_snapshot
    ∷ liquidation_event ∷ price_feed ∷ proposal ∷ vote ∷ []

-- CacheModule. `REDIS_CLIENT` is made by its factory.
abbrev pub cache_module : ModuleDef
cache_module = record {
  imports = [];
  entities = [];
  from_libraries = [];
  providers = redis_client ∷ [];
  controllers = [];
  exports = redis_client ∷ [];
}

-- AuthModule
abbrev pub auth_module : ModuleDef
auth_module = record {
  imports = cache ∷ [];
  entities = [];
  from_libraries = jwt_service ∷ [];
  providers = instance_of auth_service ∷ instance_of jwt_strategy ∷ [];
  controllers = auth_controller ∷ [];
  exports = instance_of auth_service ∷ [];
}

-- LendingModule
abbrev pub lending_module : ModuleDef
lending_module = record {
  imports = [];
  entities = supply_position ∷ asset ∷ market_snapshot ∷ user ∷ [];
  from_libraries = [];
  providers =
      instance_of lending_service
      ∷ instance_of lending_gateway
      ∷ instance_of lending_scheduler
      ∷ [];
  controllers = lending_controller ∷ [];
  exports = instance_of lending_service ∷ [];
}

-- BorrowingModule
abbrev pub borrowing_module : ModuleDef
borrowing_module = record {
  imports = [];
  entities = borrow_position ∷ collateral_position ∷ asset ∷ user ∷ [];
  from_libraries = [];
  providers = instance_of borrowing_service ∷ [];
  controllers = borrowing_controller ∷ [];
  exports = instance_of borrowing_service ∷ [];
}

-- CollateralModule
abbrev pub collateral_module : ModuleDef
collateral_module = record {
  imports = [];
  entities = collateral_position ∷ borrow_position ∷ asset ∷ user ∷ [];
  from_libraries = [];
  providers = instance_of collateral_service ∷ [];
  controllers = collateral_controller ∷ [];
  exports = instance_of collateral_service ∷ [];
}

-- LiquidationModule
abbrev pub liquidation_module : ModuleDef
liquidation_module = record {
  imports = [];
  entities = liquidation_event ∷ borrow_position ∷ collateral_position ∷ asset ∷ user ∷ [];
  from_libraries = [];
  providers =
      instance_of liquidation_service
      ∷ instance_of liquidation_bot
      ∷ instance_of liquidation_gateway
      ∷ [];
  controllers = [];
  exports = instance_of liquidation_service ∷ [];
}

-- OracleModule
abbrev pub oracle_module : ModuleDef
oracle_module = record {
  imports = [];
  entities = price_feed ∷ asset ∷ [];
  from_libraries = [];
  providers =
      instance_of oracle_aggregator_service
      ∷ instance_of twap_service
      ∷ instance_of oracle_scheduler
      ∷ [];
  controllers = [];
  exports = instance_of oracle_aggregator_service ∷ instance_of twap_service ∷ [];
}

-- IndexerModule
abbrev pub indexer_module : ModuleDef
indexer_module = record {
  imports = [];
  entities =
      supply_position ∷ borrow_position ∷ collateral_position ∷ liquidation_event ∷ market_snapshot
      ∷ asset ∷ user ∷ [];
  from_libraries = [];
  providers =
      instance_of stellar_indexer_service
      ∷ instance_of event_processor_service
      ∷ instance_of indexer_gateway
      ∷ [];
  controllers = [];
  exports = instance_of stellar_indexer_service ∷ instance_of event_processor_service ∷ [];
}

-- GovernanceModule
abbrev pub governance_module : ModuleDef
governance_module = record {
  imports = [];
  entities = proposal ∷ vote ∷ user ∷ [];
  from_libraries = [];
  providers = instance_of governance_service ∷ [];
  controllers = governance_controller ∷ [];
  exports = instance_of governance_service ∷ [];
}

-- NotificationsModule
abbrev pub notifications_module : ModuleDef
notifications_module = record {
  imports = [];
  entities = user ∷ [];
  from_libraries = [];
  providers = instance_of email_service ∷ instance_of push_service ∷ instance_of alert_service ∷ [];
  controllers = [];
  exports = instance_of email_service ∷ instance_of push_service ∷ instance_of alert_service ∷ [];
}

-- AnalyticsModule
abbrev pub analytics_module : ModuleDef
analytics_module = record {
  imports = [];
  entities =
      supply_position ∷ borrow_position ∷ collateral_position ∷ market_snapshot ∷ liquidation_event
      ∷ asset ∷ user ∷ [];
  from_libraries = [];
  providers =
      instance_of tvl_service
      ∷ instance_of apy_history_service
      ∷ instance_of protocol_stats_service
      ∷ [];
  controllers = analytics_controller ∷ [];
  exports =
      instance_of tvl_service
      ∷ instance_of apy_history_service
      ∷ instance_of protocol_stats_service
      ∷ [];
}

-- `map repository`, for a module that exports TypeOrmModule
abbrev pub repositories : List Entity → List Token
repositories [] = []
repositories (e ∷ es) = repository e ∷ repositories es

-- DatabaseModule
abbrev pub database_module : ModuleDef
database_module = record {
  imports = [];
  entities = entities;
  from_libraries = [];
  providers = [];
  controllers = [];
  exports = repositories entities;
}

-- AppModule
abbrev pub app_module : ModuleDef
app_module = record {
  imports =
      database ∷ cache ∷ auth ∷ lending ∷ borrowing ∷ collateral ∷ liquidation ∷ oracle ∷ indexer
      ∷ governance ∷ notifications ∷ analytics ∷ [];
  entities = [];
  from_libraries = [];
  providers = [];
  controllers = health_controller ∷ [];
  exports = [];
}

abbrev pub definition : ModuleName → ModuleDef
definition app = app_module
definition database = database_module
definition cache = cache_module
definition auth = auth_module
definition lending = lending_module
definition borrowing = borrowing_module
definition collateral = collateral_module
definition liquidation = liquidation_module
definition oracle = oracle_module
definition indexer = indexer_module
definition governance = governance_module
definition notifications = notifications_module
definition analytics = analytics_module
