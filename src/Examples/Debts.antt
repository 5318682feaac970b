-- ===== src/Examples/Debts.antt =====
-- Borrows, repayments and their guards on the small world.
use soro_lend.Prelude.{◌≡◌, ◌≢◌, refl, true, some, [], ◌∷◌}
use soro_lend.Prelude.Int.{pos, ◌+ℤ◌, ◌-ℤ◌, ◌≤ℤ◌}
use soro_lend.Text.{codes, text_eq}
use soro_lend.Text.Decimal.{bigint, to_text}
use soro_lend.Runtime.{ok, err}
use soro_lend.Store.{Db}
use soro_lend.Valuation.{weigh_collateral, weigh_debt}
use soro_lend.Store.Positions.{held}
use soro_lend.Examples.World.{
  World, borrow_laws, start, alice, usdc, debt_of_alice, usdc_found, alice_found,
}
use soro_lend.Schema.{BorrowPosition}
use soro_lend.Borrowing.{borrow, repay, validate_health_for_borrow}
use soro_lend.Borrowing.Debts.{owed, SetsDebt, borrow-Sets, repay-Sets}
use soro_lend.Borrowing.Guard.{too_low, borrow_ignores_amount}

abbrev larger : BorrowPosition
larger = record debt_of_alice { amount = codes "37" }

abbrev smaller : BorrowPosition
smaller = record debt_of_alice { amount = codes "23" }

abbrev after_borrow : Db World
after_borrow = record start { borrows = larger ∷ [] }

abbrev after_repay : Db World
after_repay = record start { borrows = smaller ∷ [] }

borrow_runs : borrow World (codes "GA") (codes "USDC") (codes "7") start ≡ (ok larger, after_borrow)
unfolding borrow bigint to_text text_eq ◌+ℤ◌ validate_health_for_borrow weigh_collateral weigh_debt
borrow_runs = refl

repay_runs : repay World (codes "GA") (codes "USDC") (codes "7") start ≡ (ok smaller, after_repay)
unfolding repay bigint to_text text_eq ◌-ℤ◌
repay_runs = refl

seven : bigint (codes "7") ≡ some (pos 7)
unfolding bigint
seven = refl

owes : owed World bigint (codes "u1") (codes "a2") start ≡ some (pos 30)
unfolding bigint text_eq
owes = refl

borrow-Sets_example :
    (validate_health_for_borrow World (codes "u1") usdc (codes "7") start ≡ true)
    × SetsDebt World bigint
        (codes "u1")
        (codes "a2")
        (held (owed World bigint (codes "u1") (codes "a2") start) +ℤ pos 7)
        start
        after_borrow
borrow-Sets_example =
    borrow-Sets World bigint (λ r. r) borrow_laws start {p' = larger} (codes "GA") (codes "USDC")
      (codes "7") usdc_found alice_found seven borrow_runs

repay-Sets_example :
    (pos 7 ≤ℤ pos 30)
    × SetsDebt World bigint (codes "u1") (codes "a2") (pos 30 -ℤ pos 7) start after_repay
repay-Sets_example =
    repay-Sets World bigint (λ r. r) borrow_laws start {p' = smaller} (codes "GA") (codes "USDC")
      (codes "7") {u = alice} {a = usdc} usdc_found alice_found seven owes repay_runs

borrow_ignores_amount_example :
    (borrow World (codes "GA") (codes "XLM") (codes "1000000") start).0 ≢ err too_low
borrow_ignores_amount_example =
    borrow_ignores_amount World (codes "GA") start alice_found (codes "USDC") (codes "7")
      borrow_runs (codes "XLM") (codes "1000000")
