-- ===== src/Examples/Positions.antt =====
-- Supplies and withdrawals of the small world.
use soro_lend.Prelude.{◌≡◌, refl, some, [], ◌∷◌}
use soro_lend.Prelude.Int.{pos, ◌+ℤ◌, ◌-ℤ◌, ◌≤ℤ◌}
use soro_lend.Text.{codes, text_eq}
use soro_lend.Text.Decimal.{bigint, to_text}
use soro_lend.Runtime.{ok, err, bad_request, syntax_error}
use soro_lend.Store.{Db, supply_of}
use soro_lend.Store.Positions.{held}
use soro_lend.Examples.World.{
  World, supply_laws, start, alice, xlm, supply_of_alice, xlm_found, alice_found,
}
use soro_lend.Schema.{SupplyPosition}
use soro_lend.Lending.{supply, withdraw}
use soro_lend.Lending.Ledger.{supplied, SetsSupply, supply-Sets, withdraw-Sets}
use soro_lend.Lending.RoundTrip.{withdraw-supply}

abbrev supplied_to_alice : SupplyPosition
supplied_to_alice = record supply_of_alice { amount = codes "57" }

abbrev after_supply : Db World
after_supply = record start { supplies = supplied_to_alice ∷ [] }

supply_runs :
    supply World (codes "GA") (codes "XLM") (codes "7") start ≡ (ok supplied_to_alice, after_supply)
unfolding supply bigint to_text text_eq ◌+ℤ◌
supply_runs = refl

withdraw_runs :
    withdraw World (codes "GA") (codes "XLM") (codes "7") after_supply ≡ (ok supply_of_alice, start)
unfolding withdraw bigint to_text text_eq ◌-ℤ◌
withdraw_runs = refl

seven : bigint (codes "7") ≡ some (pos 7)
unfolding bigint
seven = refl

balance_before : supplied World bigint (codes "u1") (codes "a1") start ≡ some (pos 50)
unfolding bigint text_eq
balance_before = refl

balance_after : supplied World bigint (codes "u1") (codes "a1") after_supply ≡ some (pos 57)
unfolding bigint text_eq
balance_after = refl

position_found : supply_of World (codes "u1") (codes "a1") start ≡ some supply_of_alice
unfolding text_eq
position_found = refl

supply-Sets_example :
    SetsSupply World bigint
      (codes "u1")
      (codes "a1")
      (held (supplied World bigint (codes "u1") (codes "a1") start) +ℤ pos 7)
      start
      after_supply
supply-Sets_example =
    supply-Sets World bigint (λ r. r) supply_laws start {p' = supplied_to_alice} (codes "GA")
      (codes "XLM") (codes "7") xlm_found alice_found seven supply_runs

withdraw-Sets_example :
    (pos 7 ≤ℤ pos 57)
    × SetsSupply World bigint (codes "u1") (codes "a1") (pos 57 -ℤ pos 7) after_supply start
withdraw-Sets_example =
    withdraw-Sets World bigint (λ r. r) supply_laws after_supply {p' = supply_of_alice} (codes "GA")
      (codes "XLM") (codes "7") {u = alice} {a = xlm} xlm_found alice_found seven balance_after
      withdraw_runs

withdraw-supply_example :
    supplied World bigint (codes "u1") (codes "a1") start
    ≡ supplied World bigint (codes "u1") (codes "a1") start
withdraw-supply_example =
    withdraw-supply World bigint (λ r. r) supply_laws (codes "GA") (codes "XLM") (codes "7") start
      {u = alice} {a = xlm} {x = pos 7} {m = pos 50} {db' = after_supply} {db'' = start}
      {p = supplied_to_alice} {q = supply_of_alice} xlm_found alice_found seven balance_before
      supply_runs withdraw_runs (codes "u1") (codes "a1")

supply_fails : (supply World (codes "GA") (codes "XLM") (codes "x") start).0 ≡ err syntax_error
unfolding supply bigint text_eq
supply_fails = refl

withdraw_fails :
    (withdraw World (codes "GA") (codes "XLM") (codes "51") start).0
    ≡ err (bad_request (codes "Insufficient supply balance"))
unfolding withdraw bigint text_eq ◌-ℤ◌
withdraw_fails = refl
