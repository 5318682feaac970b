-- ===== src/Examples/Liquidations.antt =====
-- Liquidations of the small world.
use soro_lend.Prelude.{◌≡◌, refl, none, some, [], ◌∷◌}
use soro_lend.Text.{codes, text_eq}
use soro_lend.Text.Decimal.{bigint}
use soro_lend.Store.{Db}
use soro_lend.Examples.World.{
  World, hundredths, start, alice, usdc, debt_of_alice, collateral_of_alice,
}
use soro_lend.Schema.{BorrowPosition, LiquidationEvent}
use soro_lend.Valuation.{weigh_collateral, weigh_debt}
use mathlib.Core.List.{Memᴰ}
use soro_lend.Liquidation.{get_at_risk_positions}
use soro_lend.Prelude.{ltb, ltb→lt, lt→ltb, arith, Bool-cases, inl, inr}
use soro_lend.Store.{borrows_of, collaterals_of}
use soro_lend.Liquidation.Bot.{Cover, calculate_optimal_debt_cover}
use soro_lend.Liquidation.Choice.{LtLaws, IsOptimal, calculate_optimal_debt_cover-IsOptimal}
use soro_lend.Liquidation.Risk.{
  All, collateral_usd, borrow_usd, IsAtRisk, get_at_risk_positions-IsAtRisk,
  mem-get_at_risk_positions,
}

abbrev liquidated : LiquidationEvent
liquidated = record {
  id = [];
  liquidator_id = codes "u2";
  borrower_id = codes "u1";
  debt_asset_id = usdc.id;
  collateral_asset_id = codes "a1";
  debt_amount = codes "30";
  collateral_seized = codes "15";
  bonus_amount = codes "0";
  tx_hash = codes "stub-9";
  block_number = none;
}

abbrev after_liquidation : Db World
after_liquidation = record start {
  borrows = record debt_of_alice { amount = codes "0" } ∷ [];
  collaterals = record collateral_of_alice { amount = codes "64" } ∷ [];
  liquidations = liquidated ∷ [];
}

abbrev heavy : BorrowPosition
heavy = record debt_of_alice { amount = codes "155" }

abbrev at_risk : Db World
at_risk = record start { borrows = heavy ∷ [] }

heavy_owed : borrows_of World (codes "u1") at_risk ≡ (heavy, usdc) ∷ []
unfolding text_eq
heavy_owed = refl

collateral_weighed : collateral_usd World at_risk (codes "u1") ≡ 16000
unfolding bigint text_eq weigh_collateral
collateral_weighed = refl

debts_weighed : borrow_usd World at_risk (codes "u1") ≡ 15500
unfolding bigint text_eq weigh_debt
debts_weighed = refl

get_at_risk_positions-IsAtRisk_example :
    All (IsAtRisk World at_risk) (get_at_risk_positions World at_risk)
get_at_risk_positions-IsAtRisk_example = get_at_risk_positions-IsAtRisk World at_risk

mem-get_at_risk_positions_example :
    Memᴰ
      (record {
        user_id = codes "u1";
        public_key = codes "GA";
        health = record {
          health_factor =
              World.num.div
                (collateral_usd World at_risk (codes "u1"))
                (borrow_usd World at_risk (codes "u1"));
          total_collateral_usd = collateral_usd World at_risk (codes "u1");
          total_borrow_usd = borrow_usd World at_risk (codes "u1");
        };
      })
      (get_at_risk_positions World at_risk)
mem-get_at_risk_positions_example =
    mem-get_at_risk_positions World at_risk {user = alice} (Memᴰ.head refl) heavy_owed
      (rw debts_weighed refl)
      (rw (collateral_weighed, debts_weighed) refl, rw (collateral_weighed, debts_weighed) refl)

lt_laws : LtLaws hundredths
lt_laws = record {
  irreflexive = λ a. elim (Bool-cases (ltb a a)) [
    | inl below ↦ absurd (omega (arith, ltb→lt a a below))
    | inr equal ↦ equal
  ];
  transitive = λ a b c h k. lt→ltb a c (omega (arith, ltb→lt a b h, ltb→lt b c k));
}

abbrev cover : Cover
cover = record { debt_asset_code = codes "USDC"; collateral_asset_code = codes "XLM" }

cover_chosen : calculate_optimal_debt_cover World (codes "u1") start ≡ some cover
unfolding calculate_optimal_debt_cover text_eq bigint
cover_chosen = refl

calculate_optimal_debt_cover-IsOptimal_example :
    IsOptimal World
      (borrows_of World (codes "u1") start)
      (collaterals_of World (codes "u1") start)
      cover
calculate_optimal_debt_cover-IsOptimal_example =
    calculate_optimal_debt_cover-IsOptimal World lt_laws (codes "u1") start cover_chosen
