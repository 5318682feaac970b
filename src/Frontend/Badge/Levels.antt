-- ===== src/Frontend/Badge/Levels.antt =====
-- The colour of the badge and its text say the same.
use soro_lend.Prelude.{true, false, not, ◌≡◌, arith, if◌then◌else◌}
use soro_lend.Text.{Text, codes}
use soro_lend.Runtime.{Number}
use soro_lend.Frontend.Badge.{Classes, classes, tooltip}

pub data Level : Type 0 where
  healthy watched risky : Level

abbrev pub colours : Level → Classes
colours healthy = record { safe = true; warning = false; danger = false }
colours watched = record { safe = false; warning = true; danger = false }
colours risky = record { safe = false; warning = false; danger = true }

abbrev pub advice : Level → Text
advice healthy = codes "Healthy collateral buffer"
advice watched = codes "Monitor your position"
advice risky = codes "Liquidation risk is elevated"

module _ (N : Number) (h : N.Value) where
  abbrev pub level : Level
  level =
      if N.le (N.literal 15 1) h
      then healthy
      else if N.le (N.literal 11 1) h
      then watched
      else risky

  -- Where the factor is finite, is below 1.5 or 1.1 exactly if it is not at least that, and is at least
  -- 1.1 if it is at least 1.5: the badge has one class, and its tooltip is that of the class.
  pub classes-tooltip :
      N.is_finite h ≡ true
      → N.lt h (N.literal 15 1) ≡ not (N.le (N.literal 15 1) h)
      → N.lt h (N.literal 11 1) ≡ not (N.le (N.literal 11 1) h)
      → (N.le (N.literal 15 1) h ≡ true → N.le (N.literal 11 1) h ≡ true)
      → (classes N h ≡ colours level) × (tooltip N h ≡ advice level)
  unfolding classes tooltip
  classes-tooltip finite below above chain = ground arith
