-- ===== src/Http/Controllers/History.antt =====
-- Requests one after the other.
use soro_lend.Prelude.{◌≡◌, arith, Bool, true, ◌&&◌, Option, List, [], ◌∷◌}
use soro_lend.Prelude.Int.{ℤ}
use soro_lend.Text.{Text}
use soro_lend.Schema.{SupplyPosition, BorrowPosition, CollateralPosition}
use soro_lend.Store.{Env, Db}
use soro_lend.Auth.{Redis, Settings}
use soro_lend.Lending.Ledger.{SupplyLaws}
use soro_lend.Borrowing.Debts.{BorrowLaws}
use soro_lend.Collateral.Balances.{CollateralLaws}
use soro_lend.Http.Controllers.{Request, Outside, serve}
use soro_lend.Http.Controllers.Solvency.{is_good, Solvent, serve-Solvent}

abbrev pub all_good : List (Outside × Request) → Bool
all_good [] = true
all_good ((o, r) ∷ rs) = is_good r && all_good rs

pub good_both : (b c : Bool) → (b && c) ≡ true → (b ≡ true) × (c ≡ true)
good_both b c h = ground arith

-- The requests one after the other.
module _ (R : Redis) (s : Settings) (sign : Text → Text) (E : Env) where
  pub run : List (Outside × Request) → Db E × R.Cache → Db E × R.Cache
  run [] state = state
  run ((o, r) ∷ rs) state = run rs (serve R s sign E o r state).1

module _ (E : Env) (value : Text → Option ℤ) {back₁ : SupplyPosition → SupplyPosition}
    {back₂ : BorrowPosition → BorrowPosition} {back₃ : CollateralPosition → CollateralPosition}
    (supply_laws : SupplyLaws E value back₁) (borrow_laws : BorrowLaws E value back₂)
    (collateral_laws : CollateralLaws E value back₃) where
  -- Where the three tables have the laws of positions and no balance is negative at first: after any
  -- requests to any controllers, one after the other, failed ones included, no balance of a supply, a
  -- debt or a collateral is negative, if `BigInt` reads the amounts of the supplies, borrows and
  -- deposits among them as numbers that are not negative. Withdrawals and repayments may be of any
  -- amount.
  pub run-Solvent :
      (R : Redis) (s : Settings) (sign : Text → Text) (rs : List (Outside × Request))
      (state : Db E × R.Cache)
      → all_good rs ≡ true
      → Solvent E value state.0
      → Solvent E value (run R s sign E rs state).0
  unfolding run
  run-Solvent R s sign [] state h v = v
  run-Solvent R s sign ((o, r) ∷ rs) state h v =
      let (now, later) = good_both (is_good r) (all_good rs) h in
      run-Solvent R s sign rs (serve R s sign E o r state).1 later (
        serve-Solvent E value supply_laws borrow_laws collateral_laws R s sign o r state.0 state.1
          now v)
