-- ===== src/Wiring/Needs.antt =====
-- What the constructors ask for, in their order (backend/src).
use soro_lend.Prelude.{List, [], ◌∷◌}
use soro_lend.Wiring.{
  user, asset, supply_position, borrow_position, collateral_position, market_snapshot,
  liquidation_event, price_feed, proposal, vote, Class, auth_service, jwt_strategy, auth_controller,
  lending_service, lending_gateway, lending_scheduler, lending_controller, borrowing_service,
  borrowing_controller, collateral_service, collateral_controller, liquidation_service,
  liquidation_bot, liquidation_gateway, oracle_aggregator_service, twap_service, oracle_scheduler,
  stellar_indexer_service, event_processor_service, indexer_gateway, governance_service,
  governance_controller, email_service, push_service, alert_service, tvl_service,
  apy_history_service, protocol_stats_service, analytics_controller, health_controller, Token,
  repository, instance_of, redis_client, jwt_service, config_service,
}

-- AuthService
abbrev pub auth_service_needs : List Token
auth_service_needs = redis_client ∷ jwt_service ∷ config_service ∷ []

-- JwtStrategy
abbrev pub jwt_strategy_needs : List Token
jwt_strategy_needs = config_service ∷ []

-- AuthController
abbrev pub auth_controller_needs : List Token
auth_controller_needs = instance_of auth_service ∷ []

-- LendingService
abbrev pub lending_service_needs : List Token
lending_service_needs = repository supply_position ∷ repository asset ∷ repository user ∷ []

-- LendingScheduler
abbrev pub lending_scheduler_needs : List Token
lending_scheduler_needs =
    repository asset ∷ repository market_snapshot ∷ instance_of lending_gateway ∷ []

-- LendingController
abbrev pub lending_controller_needs : List Token
lending_controller_needs = instance_of lending_service ∷ []

-- BorrowingService
abbrev pub borrowing_service_needs : List Token
borrowing_service_needs =
    repository borrow_position
    ∷ repository collateral_position
    ∷ repository asset
    ∷ repository user
    ∷ []

-- BorrowingController
abbrev pub borrowing_controller_needs : List Token
borrowing_controller_needs = instance_of borrowing_service ∷ []

-- CollateralService
abbrev pub collateral_service_needs : List Token
collateral_service_needs =
    repository collateral_position
    ∷ repository borrow_position
    ∷ repository asset
    ∷ repository user
    ∷ []

-- CollateralController
abbrev pub collateral_controller_needs : List Token
collateral_controller_needs = instance_of collateral_service ∷ []

-- LiquidationService
abbrev pub liquidation_service_needs : List Token
liquidation_service_needs =
    repository liquidation_event
    ∷ repository borrow_position
    ∷ repository collateral_position
    ∷ repository asset
    ∷ repository user
    ∷ []

-- LiquidationBot
abbrev pub liquidation_bot_needs : List Token
liquidation_bot_needs =
    instance_of liquidation_service
    ∷ instance_of liquidation_gateway
    ∷ repository borrow_position
    ∷ repository collateral_position
    ∷ repository asset
    ∷ repository user
    ∷ []

-- OracleAggregatorService
abbrev pub oracle_aggregator_service_needs : List Token
oracle_aggregator_service_needs = repository price_feed ∷ repository asset ∷ []

-- TwapService
abbrev pub twap_service_needs : List Token
twap_service_needs = repository price_feed ∷ []

-- OracleScheduler
abbrev pub oracle_scheduler_needs : List Token
oracle_scheduler_needs = repository asset ∷ instance_of oracle_aggregator_service ∷ []

-- StellarIndexerService
abbrev pub stellar_indexer_service_needs : List Token
stellar_indexer_service_needs =
    repository asset
    ∷ repository market_snapshot
    ∷ instance_of event_processor_service
    ∷ instance_of indexer_gateway
    ∷ []

-- EventProcessorService
abbrev pub event_processor_service_needs : List Token
event_processor_service_needs =
    repository supply_position
    ∷ repository borrow_position
    ∷ repository collateral_position
    ∷ repository liquidation_event
    ∷ repository asset
    ∷ repository user
    ∷ []

-- GovernanceService
abbrev pub governance_service_needs : List Token
governance_service_needs = repository proposal ∷ repository vote ∷ repository user ∷ []

-- GovernanceController
abbrev pub governance_controller_needs : List Token
governance_controller_needs = instance_of governance_service ∷ []

-- AlertService
abbrev pub alert_service_needs : List Token
alert_service_needs =
    repository user
    ∷ repository borrow_position
    ∷ repository collateral_position
    ∷ instance_of email_service
    ∷ instance_of push_service
    ∷ []

-- TvlService
abbrev pub tvl_service_needs : List Token
tvl_service_needs = repository supply_position ∷ repository borrow_position ∷ repository asset ∷ []

-- ApyHistoryService
abbrev pub apy_history_service_needs : List Token
apy_history_service_needs = repository market_snapshot ∷ []

-- ProtocolStatsService
abbrev pub protocol_stats_service_needs : List Token
protocol_stats_service_needs =
    repository user
    ∷ repository supply_position
    ∷ repository borrow_position
    ∷ repository collateral_position
    ∷ repository liquidation_event
    ∷ []

-- AnalyticsController
abbrev pub analytics_controller_needs : List Token
analytics_controller_needs =
    instance_of tvl_service
    ∷ instance_of apy_history_service
    ∷ instance_of protocol_stats_service
    ∷ []

abbrev pub needs : Class → List Token
needs auth_service = auth_service_needs
needs jwt_strategy = jwt_strategy_needs
needs auth_controller = auth_controller_needs
needs lending_service = lending_service_needs
needs lending_scheduler = lending_scheduler_needs
needs lending_controller = lending_controller_needs
needs borrowing_service = borrowing_service_needs
needs borrowing_controller = borrowing_controller_needs
needs collateral_service = collateral_service_needs
needs collateral_controller = collateral_controller_needs
needs liquidation_service = liquidation_service_needs
needs liquidation_bot = liquidation_bot_needs
needs oracle_aggregator_service = oracle_aggregator_service_needs
needs twap_service = twap_service_needs
needs oracle_scheduler = oracle_scheduler_needs
needs stellar_indexer_service = stellar_indexer_service_needs
needs event_processor_service = event_processor_service_needs
needs governance_service = governance_service_needs
needs governance_controller = governance_controller_needs
needs alert_service = alert_service_needs
needs tvl_service = tvl_service_needs
needs apy_history_service = apy_history_service_needs
needs protocol_stats_service = protocol_stats_service_needs
needs analytics_controller = analytics_controller_needs
needs lending_gateway = []
needs liquidation_gateway = []
needs indexer_gateway = []
needs email_service = []
needs push_service = []
needs health_controller = []
