-- ===== src/Lending/Solvency.antt =====
-- Supplies and withdrawals leave no balance negative.
use soro_lend.Prelude.{
  ◌++◌, ◌≡◌, refl, ◌⊎◌, inl, inr, true, Option, some, arith, Option-cases, Bool-cases,
}
use soro_lend.Prelude.Int.{ℤ, ltb_ℤ, ◌+ℤ◌, ◌-ℤ◌}
use soro_lend.Text.{Text, codes}
use soro_lend.Text.Decimal.{bigint, to_text}
use soro_lend.Text.Decimal.RoundTrip.{bigint-to_text}
use soro_lend.Runtime.{Error, err, not_found, rejected, bad_request}
use soro_lend.Schema.{User, Asset, SupplyPosition}
use soro_lend.Store.{
  Env, Db, Action, ◌>>=◌, ◌>>◌, gets, or_raise, raise_if, to_bigint, save_supply, supply_of,
  active_asset, user_by_key,
}
use soro_lend.Store.Positions.{Fits, Fits-absent, Fits-found}
use soro_lend.Store.Natural.{
  is_natural, Natural, save-Natural, stored-Natural, is_natural-add, is_natural-sub,
}
use soro_lend.Accounts.{new_user}
use soro_lend.Lending.{credited, supply, withdraw}
use soro_lend.Lending.Ledger.{opened, supply_positions, SupplyLaws}

module _ (E : Env) (value : Text → Option ℤ) where
  -- No supplied balance is negative.
  abbrev pub NaturalSupplies : Db E → Type 0
  NaturalSupplies db = Natural (supply_positions E value) db.supplies

module _ (E : Env) (value : Text → Option ℤ) (read_back : SupplyPosition → SupplyPosition)
    (laws : SupplyLaws E value read_back) where
  -- A write of a position, whether the table takes it or not.
  pub wrote :
      (q : SupplyPosition) (db : Db E) {m : ℤ}
      → Fits (supply_positions E value) q db.supplies
      → bigint q.amount ≡ some m
      → is_natural m ≡ true
      → NaturalSupplies E value db
      → NaturalSupplies E value (save_supply E q db).1
  wrote q db fits reads m_natural natural = elim (Option-cases (E.supplies.save q db.supplies)) [
    | inl refused ↦ rw refused natural
    | inr ((r, t), written) ↦ rw written (
        save-Natural (supply_positions E value) laws q db.supplies fits reads m_natural natural
          written)
  ]

  -- The rest of `supply` once the asset and the user are there.
  abbrev pub supplied_by : User → Asset → Text → Action E SupplyPosition
  supplied_by user asset amount = do
    found ← gets (supply_of E user.id asset.id)
    position ← credited E user asset amount found
    save_supply E position

  pub supplied_by-Natural :
      (u : User) (a : Asset) (amount : Text) (db : Db E) {x : ℤ}
      → bigint amount ≡ some x
      → is_natural x ≡ true
      → NaturalSupplies E value db
      → NaturalSupplies E value (supplied_by u a amount db).1
  unfolding credited
  supplied_by-Natural u a amount db {x} reads x_natural natural =
      elim (Option-cases (supply_of E u.id a.id db)) [
        | inl absent ↦ rw absent (
            wrote (opened u a amount) db
              (Fits-absent (supply_positions E value) laws (opened u a amount) db.supplies absent)
              reads x_natural natural)
        | inr (p, present) ↦ elim (Option-cases (bigint p.amount)) [
          | inl unread ↦ rw (present, unread) natural
          | inr (m, read) ↦
              let q : SupplyPosition = record p { amount = to_text (m +ℤ x) } in
              let old =
                stored-Natural (supply_positions E value) laws u.id a.id db.supplies natural present
                  read in
              rw (present, read, reads)
                (wrote q db
                  (Fits-found (supply_positions E value) laws u.id a.id q db.supplies present refl
                    refl refl)
                  (bigint-to_text (m +ℤ x)) (is_natural-add m x old x_natural) natural)
        ]
      ]

  supply-cases :
      (key code amount : Text) (db : Db E)
      → ((e : Error) × (supply E key code amount db ≡ (err e, db)))
        ⊎ ((u : User) × (a : Asset) × (t : E.users.Rows) × (supply E key code amount db
              ≡ supplied_by u a amount (record db { users = t })))
  unfolding supply
  supply-cases key code amount db = elim (Option-cases (active_asset E code db)) [
    | inl missing ↦ inl (not_found (codes "Asset not found: " ++ code), ground arith)
    | inr (a, asset) ↦ elim (Option-cases (user_by_key E key db)) [
      | inl new ↦ elim (Option-cases (E.users.save (new_user key) db.users)) [
        | inl refused ↦ inl (rejected, ground arith)
        | inr ((u, t), created) ↦ inr (u, a, t, ground arith)
      ]
      | inr (u, user) ↦ inr (u, a, db.users, ground arith)
    ]
  ]

  -- A supply of an amount that `BigInt` reads as a number that is not negative leaves no balance
  -- negative, whether it returns or throws.
  pub supply-Natural :
      (key code amount : Text) (db : Db E) {x : ℤ}
      → bigint amount ≡ some x
      → is_natural x ≡ true
      → NaturalSupplies E value db
      → NaturalSupplies E value (supply E key code amount db).1
  supply-Natural key code amount db reads x_natural natural =
      elim (supply-cases key code amount db) [
        | inl (e, failed) ↦ rw failed natural
        | inr (u, a, t, goes_on) ↦
            rw goes_on
              (supplied_by-Natural u a amount (record db { users = t }) reads x_natural natural)
      ]

  -- The rest of `withdraw`.
  abbrev withdrawn_by : User → Asset → Text → Action E SupplyPosition
  withdrawn_by user asset amount = do
    found ← gets (supply_of E user.id asset.id)
    position ← or_raise (not_found (codes "Supply position not found")) found
    current ← to_bigint position.amount
    withdrawal ← to_bigint amount
    raise_if (ltb_ℤ current withdrawal) (bad_request (codes "Insufficient supply balance"))
    save_supply E (record position { amount = to_text (current -ℤ withdrawal) })

  withdrawn_by-Natural :
      (u : User) (a : Asset) (amount : Text) (db : Db E)
      → NaturalSupplies E value db
      → NaturalSupplies E value (withdrawn_by u a amount db).1
  withdrawn_by-Natural u a amount db natural = elim (Option-cases (supply_of E u.id a.id db)) [
    | inl absent ↦ rw absent natural
    | inr (p, present) ↦ elim (Option-cases (bigint p.amount)) [
      | inl unread ↦ rw (present, unread) natural
      | inr (m, read) ↦ elim (Option-cases (bigint amount)) [
        | inl unread ↦ rw (present, read, unread) natural
        | inr (x, reads) ↦ elim (Bool-cases (ltb_ℤ m x)) [
          | inl short ↦ rw (present, read, reads, short) natural
          | inr covered ↦
              let q : SupplyPosition = record p { amount = to_text (m -ℤ x) } in
              rw (present, read, reads, covered)
                (wrote q db
                  (Fits-found (supply_positions E value) laws u.id a.id q db.supplies present refl
                    refl refl)
                  (bigint-to_text (m -ℤ x)) (is_natural-sub m x covered) natural)
        ]
      ]
    ]
  ]

  withdraw-cases :
      (key code amount : Text) (db : Db E)
      → ((e : Error) × (withdraw E key code amount db ≡ (err e, db)))
        ⊎ ((u : User) × (a : Asset) × (t : E.users.Rows) × (withdraw E key code amount db
              ≡ withdrawn_by u a amount (record db { users = t })))
  unfolding withdraw
  withdraw-cases key code amount db = elim (Option-cases (active_asset E code db)) [
    | inl missing ↦ inl (not_found (codes "Asset not found: " ++ code), ground arith)
    | inr (a, asset) ↦ elim (Option-cases (user_by_key E key db)) [
      | inl new ↦ elim (Option-cases (E.users.save (new_user key) db.users)) [
        | inl refused ↦ inl (rejected, ground arith)
        | inr ((u, t), created) ↦ inr (u, a, t, ground arith)
      ]
      | inr (u, user) ↦ inr (u, a, db.users, ground arith)
    ]
  ]

  -- So does a withdrawal, of any amount.
  pub withdraw-Natural :
      (key code amount : Text) (db : Db E)
      → NaturalSupplies E value db
      → NaturalSupplies E value (withdraw E key code amount db).1
  withdraw-Natural key code amount db natural = elim (withdraw-cases key code amount db) [
    | inl (e, failed) ↦ rw failed natural
    | inr (u, a, t, goes_on) ↦
        rw goes_on (withdrawn_by-Natural u a amount (record db { users = t }) natural)
  ]
