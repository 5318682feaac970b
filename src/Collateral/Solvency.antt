-- ===== src/Collateral/Solvency.antt =====
-- Deposits and withdrawals leave no balance negative.
use soro_lend.Prelude.{
  ◌++◌, ◌≡◌, refl, ◌⊎◌, inl, inr, true, Option, some, arith, Option-cases, Bool-cases, not,
}
use soro_lend.Prelude.Int.{ℤ, ltb_ℤ, ◌+ℤ◌, ◌-ℤ◌}
use soro_lend.Text.{Text, codes}
use soro_lend.Text.Decimal.{bigint, to_text}
use soro_lend.Text.Decimal.RoundTrip.{bigint-to_text}
use soro_lend.Runtime.{Error, err, not_found, rejected, bad_request}
use soro_lend.Schema.{User, Asset, CollateralPosition}
use soro_lend.Store.{
  Env, Db, Action, ◌>>=◌, ◌>>◌, gets, or_raise, raise_if, to_bigint, save_collateral, collateral_of,
  active_asset, user_by_key,
}
use soro_lend.Store.Positions.{Fits, Fits-absent, Fits-found}
use soro_lend.Store.Natural.{
  is_natural, Natural, save-Natural, stored-Natural, is_natural-add, is_natural-sub,
}
use soro_lend.Accounts.{new_user}
use soro_lend.Collateral.{deposited, deposit, withdraw, validate_withdraw_preserves_health}
use soro_lend.Collateral.Balances.{opened, collateral_positions, CollateralLaws}

module _ (E : Env) (value : Text → Option ℤ) where
  -- No collateral is negative.
  abbrev pub NaturalCollaterals : Db E → Type 0
  NaturalCollaterals db = Natural (collateral_positions E value) db.collaterals

module _ (E : Env) (value : Text → Option ℤ) (read_back : CollateralPosition → CollateralPosition)
    (laws : CollateralLaws E value read_back) where
  -- A write of a position, whether the table takes it or not.
  wrote :
      (q : CollateralPosition) (db : Db E) {m : ℤ}
      → Fits (collateral_positions E value) q db.collaterals
      → bigint q.amount ≡ some m
      → is_natural m ≡ true
      → NaturalCollaterals E value db
      → NaturalCollaterals E value (save_collateral E q db).1
  wrote q db fits reads m_natural natural =
      elim (Option-cases (E.collaterals.save q db.collaterals)) [
        | inl refused ↦ rw refused natural
        | inr ((r, t), written) ↦ rw written (
            save-Natural (collateral_positions E value) laws q db.collaterals fits reads m_natural
              natural written)
      ]

  -- The rest of `deposit` once the asset and the user are there.
  abbrev deposited_by : User → Asset → Text → Action E CollateralPosition
  deposited_by user asset amount = do
    found ← gets (collateral_of E user.id asset.id)
    position ← deposited E user asset amount found
    save_collateral E position

  deposited_by-Natural :
      (u : User) (a : Asset) (amount : Text) (db : Db E) {x : ℤ}
      → bigint amount ≡ some x
      → is_natural x ≡ true
      → NaturalCollaterals E value db
      → NaturalCollaterals E value (deposited_by u a amount db).1
  unfolding deposited
  deposited_by-Natural u a amount db {x} reads x_natural natural =
      elim (Option-cases (collateral_of E u.id a.id db)) [
        | inl absent ↦ rw absent (
            wrote (opened u a amount) db
              (Fits-absent (collateral_positions E value) laws (opened u a amount) db.collaterals
                absent)
              reads x_natural natural)
        | inr (p, present) ↦ elim (Option-cases (bigint p.amount)) [
          | inl unread ↦ rw (present, unread) natural
          | inr (m, read) ↦
              let q : CollateralPosition = record p { amount = to_text (m +ℤ x) } in
              let old =
                stored-Natural (collateral_positions E value) laws u.id a.id db.collaterals natural
                  present read in
              rw (present, read, reads)
                (wrote q db
                  (Fits-found (collateral_positions E value) laws u.id a.id q db.collaterals present
                    refl refl refl)
                  (bigint-to_text (m +ℤ x)) (is_natural-add m x old x_natural) natural)
        ]
      ]

  deposit-cases :
      (key code amount : Text) (db : Db E)
      → ((e : Error) × (t : E.users.Rows) × (deposit E key code amount db
            ≡ (err e, record db { users = t })))
        ⊎ ((u : User) × (a : Asset) × (t : E.users.Rows) × (deposit E key code amount db
              ≡ deposited_by u a amount (record db { users = t })))
  unfolding deposit
  deposit-cases key code amount db = elim (Option-cases (user_by_key E key db)) [
    | inl new ↦ elim (Option-cases (E.users.save (new_user key) db.users)) [
      | inl refused ↦ inl (rejected, db.users, ground arith)
      | inr ((u, t), created) ↦ elim (Option-cases (active_asset E code db)) [
        | inl missing ↦ inl (not_found (codes "Asset not found: " ++ code), t, ground arith)
        | inr (a, asset) ↦ inr (u, a, t, ground arith)
      ]
    ]
    | inr (u, user) ↦ elim (Option-cases (active_asset E code db)) [
      | inl missing ↦ inl (not_found (codes "Asset not found: " ++ code), db.users, ground arith)
      | inr (a, asset) ↦ inr (u, a, db.users, ground arith)
    ]
  ]

  -- A deposit of an amount that `BigInt` reads as a number that is not negative leaves no balance
  -- negative, whether it returns or throws.
  pub deposit-Natural :
      (key code amount : Text) (db : Db E) {x : ℤ}
      → bigint amount ≡ some x
      → is_natural x ≡ true
      → NaturalCollaterals E value db
      → NaturalCollaterals E value (deposit E key code amount db).1
  deposit-Natural key code amount db reads x_natural natural =
      elim (deposit-cases key code amount db) [
        | inl (e, t, failed) ↦ rw failed natural
        | inr (u, a, t, goes_on) ↦
            rw goes_on
              (deposited_by-Natural u a amount (record db { users = t }) reads x_natural natural)
      ]

  -- The rest of `withdraw`.
  abbrev withdrawn_by : User → Asset → Text → Action E CollateralPosition
  withdrawn_by user asset amount = do
    found ← gets (collateral_of E user.id asset.id)
    position ← or_raise (not_found (codes "Collateral position not found")) found
    current ← to_bigint position.amount
    withdrawal ← to_bigint amount
    raise_if (ltb_ℤ current withdrawal) (bad_request (codes "Insufficient collateral balance"))
    let remaining = to_text (current -ℤ withdrawal)
    health_ok ← gets (validate_withdraw_preserves_health E user.id remaining)
    raise_if (not health_ok) (bad_request (codes "Withdrawal would make health factor too low"))
    save_collateral E (record position { amount = remaining })

  withdrawn_by-Natural :
      (u : User) (a : Asset) (amount : Text) (db : Db E)
      → NaturalCollaterals E value db
      → NaturalCollaterals E value (withdrawn_by u a amount db).1
  withdrawn_by-Natural u a amount db natural = elim (Option-cases (collateral_of E u.id a.id db)) [
    | inl absent ↦ rw absent natural
    | inr (p, present) ↦ elim (Option-cases (bigint p.amount)) [
      | inl unread ↦ rw (present, unread) natural
      | inr (m, read) ↦ elim (Option-cases (bigint amount)) [
        | inl unread ↦ rw (present, read, unread) natural
        | inr (x, reads) ↦ elim (Bool-cases (ltb_ℤ m x)) [
          | inl short ↦ rw (present, read, reads, short) natural
          | inr covered ↦
              let left = to_text (m -ℤ x) in
              let q : CollateralPosition = record p { amount = left } in
              elim (Bool-cases (validate_withdraw_preserves_health E u.id left db)) [
                | inr unhealthy ↦ rw (present, read, reads, covered, unhealthy) natural
                | inl healthy ↦
                    rw (present, read, reads, covered, healthy)
                      (wrote q db
                        (Fits-found (collateral_positions E value) laws u.id a.id q db.collaterals
                          present refl refl refl)
                        (bigint-to_text (m -ℤ x)) (is_natural-sub m x covered) natural)
              ]
        ]
      ]
    ]
  ]

  withdraw-cases :
      (key code amount : Text) (db : Db E)
      → ((e : Error) × (t : E.users.Rows) × (withdraw E key code amount db
            ≡ (err e, record db { users = t })))
        ⊎ ((u : User) × (a : Asset) × (t : E.users.Rows) × (withdraw E key code amount db
              ≡ withdrawn_by u a amount (record db { users = t })))
  unfolding withdraw
  withdraw-cases key code amount db = elim (Option-cases (user_by_key E key db)) [
    | inl new ↦ elim (Option-cases (E.users.save (new_user key) db.users)) [
      | inl refused ↦ inl (rejected, db.users, ground arith)
      | inr ((u, t), created) ↦ elim (Option-cases (active_asset E code db)) [
        | inl missing ↦ inl (not_found (codes "Asset not found: " ++ code), t, ground arith)
        | inr (a, asset) ↦ inr (u, a, t, ground arith)
      ]
    ]
    | inr (u, user) ↦ elim (Option-cases (active_asset E code db)) [
      | inl missing ↦ inl (not_found (codes "Asset not found: " ++ code), db.users, ground arith)
      | inr (a, asset) ↦ inr (u, a, db.users, ground arith)
    ]
  ]

  -- So does a withdrawal, of any amount.
  pub withdraw-Natural :
      (key code amount : Text) (db : Db E)
      → NaturalCollaterals E value db
      → NaturalCollaterals E value (withdraw E key code amount db).1
  withdraw-Natural key code amount db natural = elim (withdraw-cases key code amount db) [
    | inl (e, t, failed) ↦ rw failed natural
    | inr (u, a, t, goes_on) ↦
        rw goes_on (withdrawn_by-Natural u a amount (record db { users = t }) natural)
  ]
