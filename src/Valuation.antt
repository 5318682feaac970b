-- ===== src/Valuation.antt =====
-- The loops that value the positions of a user in US dollars. BorrowingService, CollateralService,
-- LiquidationService and AlertService each have a copy of them.
use soro_lend.Prelude.{Option, none, some, List, [], ◌∷◌}
use soro_lend.Text.{Text, truthy}
use soro_lend.Runtime.{Number}
use soro_lend.Schema.{Asset, BorrowPosition, CollateralPosition}

module _ (N : Number) where
  open N use {Value, literal, parse_float, add, mul}

  -- `x ? parseFloat(x) : 0`
  abbrev pub number_or_zero : Option Text → Value
  number_or_zero t = elim (truthy t) [ none ↦ literal 0 0 | some s ↦ parse_float s ]

  abbrev pub price_of : Asset → Value
  price_of a = number_or_zero a.oracle_price

  -- `total += parseFloat(cp.amount) * price * weight`, the weight being a ratio of the asset
  unfoldable pub weigh_collateral :
      (Asset → Option Text) → Value → List (CollateralPosition × Asset) → Value
  weigh_collateral ratio total [] = total
  weigh_collateral ratio total ((cp, a) ∷ rest) =
      weigh_collateral ratio
        (add total (mul (mul (parse_float cp.amount) (price_of a)) (number_or_zero (ratio a)))) rest

  -- `total += parseFloat(bp.amount) * price`
  unfoldable pub weigh_debt : Value → List (BorrowPosition × Asset) → Value
  weigh_debt total [] = total
  weigh_debt total ((bp, a) ∷ rest) =
      weigh_debt (add total (mul (parse_float bp.amount) (price_of a))) rest

  -- The sums that decide the health factor.
  abbrev pub collateral_value : List (CollateralPosition × Asset) → Value
  collateral_value = weigh_collateral (λ a. a.liquidation_threshold) (literal 0 0)

  abbrev pub debt_value : List (BorrowPosition × Asset) → Value
  debt_value = weigh_debt (literal 0 0)
