-- ===== src/Examples/Collaterals.antt =====
-- Deposits and withdrawals of collateral on the small world.
use soro_lend.Prelude.{◌≡◌, refl, true, some, [], ◌∷◌, arith}
use soro_lend.Prelude.Int.{pos, ◌+ℤ◌, ◌-ℤ◌, ◌≤ℤ◌}
use soro_lend.Text.{codes, text_eq}
use soro_lend.Text.Decimal.{bigint, to_text}
use soro_lend.Runtime.{ok}
use soro_lend.Store.{Db, save_collateral}
use soro_lend.Store.Positions.{held}
use soro_lend.Examples.World.{
  World, collateral_laws, start, alice, xlm, collateral_of_alice, xlm_found, alice_found,
  collateral_found,
}
use soro_lend.Schema.{CollateralPosition}
use soro_lend.Valuation.{weigh_collateral, weigh_debt}
use soro_lend.Collateral.{deposit, withdraw, validate_withdraw_preserves_health}
use soro_lend.Collateral.Balances.{pledged, SetsCollateral, deposit-Sets, withdraw-SetsCollateral}
use soro_lend.Collateral.Guard.{withdraw_ignores_remaining}

abbrev larger : CollateralPosition
larger = record collateral_of_alice { amount = codes "87" }

abbrev smaller : CollateralPosition
smaller = record collateral_of_alice { amount = codes "73" }

abbrev after_deposit : Db World
after_deposit = record start { collaterals = larger ∷ [] }

abbrev after_withdrawal : Db World
after_withdrawal = record start { collaterals = smaller ∷ [] }

deposit_runs :
    deposit World (codes "GA") (codes "XLM") (codes "7") start ≡ (ok larger, after_deposit)
unfolding deposit bigint to_text text_eq ◌+ℤ◌
deposit_runs = refl

withdraw_runs :
    withdraw World (codes "GA") (codes "XLM") (codes "7") start ≡ (ok smaller, after_withdrawal)
unfolding withdraw bigint to_text text_eq ◌-ℤ◌ validate_withdraw_preserves_health weigh_collateral
    weigh_debt
withdraw_runs = refl

seven : bigint (codes "7") ≡ some (pos 7)
unfolding bigint
seven = refl

eighty : bigint (codes "80") ≡ some (pos 80)
unfolding bigint
eighty = refl

balance : pledged World bigint (codes "u1") (codes "a1") start ≡ some (pos 80)
unfolding bigint text_eq
balance = refl

deposit-Sets_example :
    SetsCollateral World bigint
      (codes "u1")
      (codes "a1")
      (held (pledged World bigint (codes "u1") (codes "a1") start) +ℤ pos 7)
      start
      after_deposit
deposit-Sets_example =
    deposit-Sets World bigint (λ r. r) collateral_laws start {p' = larger} (codes "GA")
      (codes "XLM") (codes "7") xlm_found alice_found seven deposit_runs

withdraw-SetsCollateral_example :
    (pos 7 ≤ℤ pos 80)
    × (validate_withdraw_preserves_health World (codes "u1") (to_text (pos 80 -ℤ pos 7)) start
        ≡ true)
    × SetsCollateral World bigint (codes "u1") (codes "a1") (pos 80 -ℤ pos 7) start after_withdrawal
withdraw-SetsCollateral_example =
    withdraw-SetsCollateral World bigint (λ r. r) collateral_laws start {p' = smaller} (codes "GA")
      (codes "XLM") (codes "7") {u = alice} {a = xlm} xlm_found alice_found seven balance
      withdraw_runs

all_of_it : pos 80 ≤ℤ pos 80
all_of_it = omega arith

withdraw_ignores_remaining_example :
    withdraw World (codes "GA") (codes "XLM") (codes "80") start
    ≡ save_collateral World
        (record collateral_of_alice { amount = to_text (pos 80 -ℤ pos 80) })
        start
withdraw_ignores_remaining_example =
    withdraw_ignores_remaining World (codes "GA") (codes "XLM") start {m = pos 80} {x = pos 7}
      {y = pos 80} xlm_found alice_found collateral_found eighty (codes "7") {q = smaller}
      {db' = after_withdrawal} seven withdraw_runs (codes "80") eighty all_of_it
