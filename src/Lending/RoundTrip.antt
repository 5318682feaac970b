-- ===== src/Lending/RoundTrip.antt =====
-- Supply and withdrawal of the same amount.
use soro_lend.Prelude.{Option, ◌≡◌, sym, ◌∙◌, ap, ◌&&◌, some, arith, Bool-cases, inl, inr}
use soro_lend.Prelude.Int.{ℤ, ◌+ℤ◌, ◌-ℤ◌, int_laws}
use soro_lend.Text.{Text, text_eq, text_eq_refl}
use soro_lend.Text.Decimal.{bigint}
use soro_lend.Runtime.{ok}
use soro_lend.Schema.{User, Asset, SupplyPosition}
use soro_lend.Store.{Env, Db, user_by_key, active_asset}
use soro_lend.Lending.{supply, withdraw}
use soro_lend.Lending.Ledger.{SupplyLaws, supplied, supply-Sets, withdraw-Sets}
use soro_lend.Store.Positions.{key_texts}
use soro_lend.Lending.Failures.{KeepsOthers, supply-KeepsOthers, supply_known}

module _ (E : Env) (value : Text → Option ℤ) (read_back : SupplyPosition → SupplyPosition)
    (laws : SupplyLaws E value read_back) (key code amount : Text) (db : Db E) {u : User}
    {a : Asset} {x m : ℤ} {db' db'' : Db E} {p q : SupplyPosition}
    (asset : active_asset E code db ≡ some a) (user : user_by_key E key db ≡ some u)
    (number : bigint amount ≡ some x) where
  -- For an active asset, a user who exists, an amount that `BigInt` reads and a table with the
  -- laws of positions: a supply on a position with a balance and a withdrawal of the same amount
  -- right after it, if both return, leave every balance as it was.
  pub withdraw-supply :
      supplied E value u.id a.id db ≡ some m
      → supply E key code amount db ≡ (ok p, db')
      → withdraw E key code amount db' ≡ (ok q, db'')
      → (v b : Text) → supplied E value v b db'' ≡ supplied E value v b db
  withdraw-supply balance first second v b =
      let same : KeepsOthers E db db' = rw first at (supply-KeepsOthers E key code amount db) in
      let asset' : active_asset E code db' ≡ some a = rw same.0 asset in
      let same_users : db'.users ≡ db.users =
        rw first at (supply_known E key code amount db user) in
      let user' : user_by_key E key db' ≡ some u = rw same_users user in
      let one = supply-Sets E value read_back laws db key code amount asset user number first in
      let at_key : supplied E value u.id a.id db' ≡ some (m +ℤ x) =
        ground (arith, one u.id a.id, text_eq_refl u.id, text_eq_refl a.id, balance) in
      let two =
        withdraw-Sets E value read_back laws db' key code amount asset' user' number at_key
          second in
      let back : m +ℤ x -ℤ x ≡ m = omega int_laws in
      elim (Bool-cases (text_eq u.id v && text_eq a.id b)) [
        | inl here ↦
            let (same_user, same_asset) = key_texts u.id a.id v b here in
            (rw here at (two.1 v b)) ∙ (ap some back ∙ rw (← same_user, ← same_asset) (sym balance))
        | inr elsewhere ↦ (rw elsewhere at (two.1 v b)) ∙ (rw elsewhere at (one v b))
      ]
