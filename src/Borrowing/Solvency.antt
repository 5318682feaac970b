-- ===== src/Borrowing/Solvency.antt =====
-- Borrows and repayments leave no debt negative.
use soro_lend.Prelude.{
  ◌++◌, ◌≡◌, refl, ◌⊎◌, inl, inr, true, Option, some, arith, Option-cases, Bool-cases, not,
}
use soro_lend.Prelude.Int.{ℤ, ltb_ℤ, ◌+ℤ◌, ◌-ℤ◌}
use soro_lend.Text.{Text, codes}
use soro_lend.Text.Decimal.{bigint, to_text}
use soro_lend.Text.Decimal.RoundTrip.{bigint-to_text}
use soro_lend.Runtime.{Error, err, not_found, rejected, bad_request}
use soro_lend.Schema.{User, Asset, BorrowPosition}
use soro_lend.Store.{
  Env, Db, Action, ◌>>=◌, ◌>>◌, gets, or_raise, raise_if, to_bigint, save_borrow, borrow_of,
  active_asset, user_by_key,
}
use soro_lend.Store.Positions.{Fits, Fits-absent, Fits-found}
use soro_lend.Store.Natural.{
  is_natural, Natural, save-Natural, stored-Natural, is_natural-add, is_natural-sub,
}
use soro_lend.Accounts.{new_user}
use soro_lend.Borrowing.{borrowed, borrow, repay, validate_health_for_borrow}
use soro_lend.Borrowing.Debts.{opened, borrow_positions, BorrowLaws}

module _ (E : Env) (value : Text → Option ℤ) where
  -- No debt is negative.
  abbrev pub NaturalDebts : Db E → Type 0
  NaturalDebts db = Natural (borrow_positions E value) db.borrows

module _ (E : Env) (value : Text → Option ℤ) (read_back : BorrowPosition → BorrowPosition)
    (laws : BorrowLaws E value read_back) where
  -- A write of a position, whether the table takes it or not.
  pub wrote :
      (q : BorrowPosition) (db : Db E) {m : ℤ}
      → Fits (borrow_positions E value) q db.borrows
      → bigint q.amount ≡ some m
      → is_natural m ≡ true
      → NaturalDebts E value db
      → NaturalDebts E value (save_borrow E q db).1
  wrote q db fits reads m_natural natural = elim (Option-cases (E.borrows.save q db.borrows)) [
    | inl refused ↦ rw refused natural
    | inr ((r, t), written) ↦ rw written (
        save-Natural (borrow_positions E value) laws q db.borrows fits reads m_natural natural
          written)
  ]

  -- The rest of `borrow` once the user is there, the asset, and a health factor that allows it.
  abbrev pub lent_to : User → Asset → Text → Action E BorrowPosition
  lent_to user asset amount = do
    found ← gets (borrow_of E user.id asset.id)
    position ← borrowed E user asset amount found
    save_borrow E position

  pub lent_to-Natural :
      (u : User) (a : Asset) (amount : Text) (db : Db E) {x : ℤ}
      → bigint amount ≡ some x
      → is_natural x ≡ true
      → NaturalDebts E value db
      → NaturalDebts E value (lent_to u a amount db).1
  unfolding borrowed
  lent_to-Natural u a amount db {x} reads x_natural natural =
      elim (Option-cases (borrow_of E u.id a.id db)) [
        | inl absent ↦ rw absent (
            wrote (opened u a amount) db
              (Fits-absent (borrow_positions E value) laws (opened u a amount) db.borrows absent)
              reads x_natural natural)
        | inr (p, present) ↦ elim (Option-cases (bigint p.amount)) [
          | inl unread ↦ rw (present, unread) natural
          | inr (m, read) ↦
              let q : BorrowPosition = record p { amount = to_text (m +ℤ x) } in
              let old =
                stored-Natural (borrow_positions E value) laws u.id a.id db.borrows natural present
                  read in
              rw (present, read, reads)
                (wrote q db
                  (Fits-found (borrow_positions E value) laws u.id a.id q db.borrows present refl
                    refl refl)
                  (bigint-to_text (m +ℤ x)) (is_natural-add m x old x_natural) natural)
        ]
      ]

  -- The rest of `borrow` once the user and the asset are there.
  abbrev judged_for : User → Asset → Text → Action E BorrowPosition
  judged_for user asset amount = do
    health_ok ← gets (validate_health_for_borrow E user.id asset amount)
    raise_if (not health_ok)
        (bad_request (codes "Borrow would put health factor below minimum threshold"))
    lent_to user asset amount

  judged_for-Natural :
      (u : User) (a : Asset) (amount : Text) (db : Db E) {x : ℤ}
      → bigint amount ≡ some x
      → is_natural x ≡ true
      → NaturalDebts E value db
      → NaturalDebts E value (judged_for u a amount db).1
  judged_for-Natural u a amount db reads x_natural natural =
      elim (Bool-cases (validate_health_for_borrow E u.id a amount db)) [
        | inl healthy ↦ rw healthy (lent_to-Natural u a amount db reads x_natural natural)
        | inr unhealthy ↦ rw unhealthy natural
      ]

  borrow-cases :
      (key code amount : Text) (db : Db E)
      → ((e : Error) × (t : E.users.Rows) × (borrow E key code amount db
            ≡ (err e, record db { users = t })))
        ⊎ ((u : User) × (a : Asset) × (t : E.users.Rows) × (borrow E key code amount db
              ≡ judged_for u a amount (record db { users = t })))
  unfolding borrow
  borrow-cases key code amount db = elim (Option-cases (user_by_key E key db)) [
    | inl new ↦ elim (Option-cases (E.users.save (new_user key) db.users)) [
      | inl refused ↦ inl (rejected, db.users, ground arith)
      | inr ((u, t), created) ↦ elim (Option-cases (active_asset E code db)) [
        | inl missing ↦ inl (not_found (codes "Asset not found: " ++ code), t, ground arith)
        | inr (a, asset) ↦ inr (u, a, t, ground arith)
      ]
    ]
    | inr (u, user) ↦ elim (Option-cases (active_asset E code db)) [
      | inl missing ↦ inl (not_found (codes "Asset not found: " ++ code), db.users, ground arith)
      | inr (a, asset) ↦ inr (u, a, db.users, ground arith)
    ]
  ]

  -- A borrow of an amount that `BigInt` reads as a number that is not negative leaves no debt
  -- negative, whether it returns or throws.
  pub borrow-Natural :
      (key code amount : Text) (db : Db E) {x : ℤ}
      → bigint amount ≡ some x
      → is_natural x ≡ true
      → NaturalDebts E value db
      → NaturalDebts E value (borrow E key code amount db).1
  borrow-Natural key code amount db reads x_natural natural =
      elim (borrow-cases key code amount db) [
        | inl (e, t, failed) ↦ rw failed natural
        | inr (u, a, t, goes_on) ↦
            rw goes_on
              (judged_for-Natural u a amount (record db { users = t }) reads x_natural natural)
      ]

  -- The rest of `repay`.
  abbrev repaid_by : User → Asset → Text → Action E BorrowPosition
  repaid_by user asset amount = do
    found ← gets (borrow_of E user.id asset.id)
    position ← or_raise (not_found (codes "Borrow position not found")) found
    current ← to_bigint position.amount
    repayment ← to_bigint amount
    raise_if (ltb_ℤ current repayment) (bad_request (codes "Repay amount exceeds outstanding debt"))
    save_borrow E (record position { amount = to_text (current -ℤ repayment) })

  repaid_by-Natural :
      (u : User) (a : Asset) (amount : Text) (db : Db E)
      → NaturalDebts E value db
      → NaturalDebts E value (repaid_by u a amount db).1
  repaid_by-Natural u a amount db natural = elim (Option-cases (borrow_of E u.id a.id db)) [
    | inl absent ↦ rw absent natural
    | inr (p, present) ↦ elim (Option-cases (bigint p.amount)) [
      | inl unread ↦ rw (present, unread) natural
      | inr (m, read) ↦ elim (Option-cases (bigint amount)) [
        | inl unread ↦ rw (present, read, unread) natural
        | inr (x, reads) ↦ elim (Bool-cases (ltb_ℤ m x)) [
          | inl short ↦ rw (present, read, reads, short) natural
          | inr covered ↦
              let q : BorrowPosition = record p { amount = to_text (m -ℤ x) } in
              rw (present, read, reads, covered)
                (wrote q db
                  (Fits-found (borrow_positions E value) laws u.id a.id q db.borrows present refl
                    refl refl)
                  (bigint-to_text (m -ℤ x)) (is_natural-sub m x covered) natural)
        ]
      ]
    ]
  ]

  repay-cases :
      (key code amount : Text) (db : Db E)
      → ((e : Error) × (t : E.users.Rows) × (repay E key code amount db
            ≡ (err e, record db { users = t })))
        ⊎ ((u : User) × (a : Asset) × (t : E.users.Rows) × (repay E key code amount db
              ≡ repaid_by u a amount (record db { users = t })))
  unfolding repay
  repay-cases key code amount db = elim (Option-cases (user_by_key E key db)) [
    | inl new ↦ elim (Option-cases (E.users.save (new_user key) db.users)) [
      | inl refused ↦ inl (rejected, db.users, ground arith)
      | inr ((u, t), created) ↦ elim (Option-cases (active_asset E code db)) [
        | inl missing ↦ inl (not_found (codes "Asset not found: " ++ code), t, ground arith)
        | inr (a, asset) ↦ inr (u, a, t, ground arith)
      ]
    ]
    | inr (u, user) ↦ elim (Option-cases (active_asset E code db)) [
      | inl missing ↦ inl (not_found (codes "Asset not found: " ++ code), db.users, ground arith)
      | inr (a, asset) ↦ inr (u, a, db.users, ground arith)
    ]
  ]

  -- So does a repayment, of any amount.
  pub repay-Natural :
      (key code amount : Text) (db : Db E)
      → NaturalDebts E value db
      → NaturalDebts E value (repay E key code amount db).1
  repay-Natural key code amount db natural = elim (repay-cases key code amount db) [
    | inl (e, t, failed) ↦ rw failed natural
    | inr (u, a, t, goes_on) ↦
        rw goes_on (repaid_by-Natural u a amount (record db { users = t }) natural)
  ]
