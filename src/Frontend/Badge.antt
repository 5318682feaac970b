-- ===== src/Frontend/Badge.antt =====
-- HealthFactorBadgeComponent (frontend/src/app/shared/health-factor-badge).
pub mod Levels
use soro_lend.Prelude.{Bool, true, false, not, ◌&&◌, if◌then◌else◌}
use soro_lend.Text.{Text, codes}
use soro_lend.Runtime.{Number}

-- The classes of the badge's element: safe, warning and danger.
pub record Classes : Type 0 where
  pub safe : Bool
  pub warning : Bool
  pub danger : Bool

module _ (N : Number) where
  unfoldable pub classes : N.Value → Classes
  classes h = record {
    safe = N.le (N.literal 15 1) h;
    warning = N.lt h (N.literal 15 1) && N.le (N.literal 11 1) h;
    danger = N.lt h (N.literal 11 1);
  }

  unfoldable pub display_value : N.Value → Text
  display_value h = if N.is_finite h then N.to_fixed 2 h else codes "Safe"

  unfoldable pub tooltip : N.Value → Text
  tooltip h =
      if not (N.is_finite h)
      then codes "No borrow exposure"
      else if N.le (N.literal 15 1) h
      then codes "Healthy collateral buffer"
      else if N.le (N.literal 11 1) h
      then codes "Monitor your position"
      else codes "Liquidation risk is elevated"
