-- ===== src/Collateral/Guard.antt =====
-- What the health check of a withdrawal of collateral looks at.
use soro_lend.Prelude.{◌≡◌, ◌∙◌, sym, refl, some, arith}
use soro_lend.Prelude.Int.{ℤ, ◌-ℤ◌, ◌≤ℤ◌}
use soro_lend.Text.{Text}
use soro_lend.Text.Decimal.{bigint, to_text}
use soro_lend.Runtime.{ok}
use soro_lend.Schema.{User, Asset, CollateralPosition}
use soro_lend.Store.{Env, Db, save_collateral, collateral_of, user_by_key, active_asset}
use soro_lend.Collateral.{validate_withdraw_preserves_health, withdraw}
use soro_lend.Collateral.Balances.{withdraw-sub}

ignores_remaining :
    (E : Env) (user_id s t : Text) (db : Db E)
    → validate_withdraw_preserves_health E user_id s db
      ≡ validate_withdraw_preserves_health E user_id t db
unfolding validate_withdraw_preserves_health
ignores_remaining E user_id s t db = refl

module _ (E : Env) (key code : Text) (db : Db E) {u : User} {a : Asset} {p : CollateralPosition}
    {m x y : ℤ} (asset : active_asset E code db ≡ some a) (user : user_by_key E key db ≡ some u)
    (position : collateral_of E u.id a.id db ≡ some p) (balance : bigint p.amount ≡ some m) where
  -- For an active asset, a user who exists and a stored amount that `BigInt` reads: where one
  -- withdrawal returns, every withdrawal of at most the balance, up to all of it, gets as far as
  -- its write. The health check does not look at what would remain.
  pub withdraw_ignores_remaining :
      (amount : Text) {q : CollateralPosition} {db' : Db E}
      → bigint amount ≡ some x
      → withdraw E key code amount db ≡ (ok q, db')
      → (amount' : Text) → bigint amount' ≡ some y
      → y ≤ℤ m
      → withdraw E key code amount' db
        ≡ save_collateral E (record p { amount = to_text (m -ℤ y) }) db
  withdraw_ignores_remaining amount number done amount' number' fits =
      let first =
        sym (withdraw-sub E key code amount db asset user position balance number) ∙ done in
      let second = withdraw-sub E key code amount' db asset user position balance number' in
      second
      ∙ ground (arith, first, ignores_remaining E u.id (to_text (m -ℤ x)) (to_text (m -ℤ y)) db)
