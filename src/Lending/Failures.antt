-- ===== src/Lending/Failures.antt =====
-- What supplies and withdrawals leave alone, and what they leave when they throw.
use soro_lend.Prelude.{◌≡◌, some, arith}
use soro_lend.Text.{Text}
use soro_lend.Runtime.{Error, err}
use soro_lend.Schema.{User}
use soro_lend.Store.{Env, Db, user_by_key}
use soro_lend.Lending.{supply, withdraw}

-- The tables that LendingService has no repository for, or only reads, are as they were.
abbrev pub KeepsOthers : (E : Env) → Db E → Db E → Type 0
KeepsOthers E db db' =
    (db'.assets ≡ db.assets)
    × (db'.borrows ≡ db.borrows)
    × (db'.collaterals ≡ db.collaterals)
    × (db'.liquidations ≡ db.liquidations)

module _ (E : Env) (key code amount : Text) (db : Db E) where
  pub supply-KeepsOthers : KeepsOthers E db (supply E key code amount db).1
  unfolding supply
  supply-KeepsOthers = ground arith

  pub withdraw-KeepsOthers : KeepsOthers E db (withdraw E key code amount db).1
  unfolding withdraw
  withdraw-KeepsOthers = ground arith

  -- A supply that throws has written no position.
  pub supply_throws :
      {e : Error}
      → (supply E key code amount db).0 ≡ err e
      → (supply E key code amount db).1.supplies ≡ db.supplies
  unfolding supply
  supply_throws h = ground arith

  -- A withdrawal that throws has written no position.
  pub withdraw_throws :
      {e : Error}
      → (withdraw E key code amount db).0 ≡ err e
      → (withdraw E key code amount db).1.supplies ≡ db.supplies
  unfolding withdraw
  withdraw_throws h = ground arith

  -- The users stay too, if the caller is one of them.
  pub supply_known :
      {u : User} → user_by_key E key db ≡ some u → (supply E key code amount db).1.users ≡ db.users
  unfolding supply
  supply_known h = ground arith
