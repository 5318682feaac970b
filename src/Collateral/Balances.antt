-- ===== src/Collateral/Balances.antt =====
-- Deposits and withdrawals of collateral as moves of a ledger of integer balances.
use soro_lend.Prelude.{
  ◌≡◌, refl, ap, sym, ◌∙◌, inl, inr, true, Option, none, some, arith, if◌then◌else◌, Option-cases,
  Bool-cases, [],
}
use soro_lend.Prelude.Int.{ℤ, pos, ◌+ℤ◌, ◌-ℤ◌, ◌≤ℤ◌, ltb_ℤ, int_laws}
use soro_lend.Text.{Text, codes}
use soro_lend.Text.Decimal.{bigint, to_text}
use soro_lend.Text.Decimal.RoundTrip.{bigint-to_text}
use soro_lend.Runtime.{ok, err, bad_request, syntax_error}
use soro_lend.Schema.{User, Asset, CollateralPosition}
use soro_lend.Store.{saved_ok, Env, Db, save_collateral, collateral_of, user_by_key, active_asset}
use soro_lend.Store.Positions.{
  PositionLaws, Positions, Sets, entry, held, write_found, write_absent,
}
use soro_lend.Collateral.{validate_withdraw_preserves_health, deposit, withdraw}

-- The `create` of `deposit`.
abbrev pub opened : User → Asset → Text → CollateralPosition
opened u a amount = record { id = []; user_id = u.id; asset_id = a.id; amount = amount }

module _ (E : Env) (key code amount : Text) (db : Db E) {u : User} {a : Asset}
    (asset : active_asset E code db ≡ some a) (user : user_by_key E key db ≡ some u) where
  pub deposit-new :
      collateral_of E u.id a.id db ≡ none
      → deposit E key code amount db ≡ save_collateral E (opened u a amount) db
  unfolding deposit
  deposit-new h = ground arith

  pub deposit-add :
      {p : CollateralPosition} {m x : ℤ}
      → collateral_of E u.id a.id db ≡ some p
      → bigint p.amount ≡ some m
      → bigint amount ≡ some x
      → deposit E key code amount db ≡ save_collateral E (record p { amount = to_text (m +ℤ x) }) db
  unfolding deposit
  deposit-add h i j = ground arith

  deposit-unread :
      {p : CollateralPosition}
      → collateral_of E u.id a.id db ≡ some p
      → bigint p.amount ≡ none
      → deposit E key code amount db ≡ (err syntax_error, db)
  unfolding deposit
  deposit-unread h i = ground arith

  -- The two guards of a withdrawal, in the order in which they are tried, and its write.
  pub withdraw-sub :
      {p : CollateralPosition} {m x : ℤ}
      → collateral_of E u.id a.id db ≡ some p
      → bigint p.amount ≡ some m
      → bigint amount ≡ some x
      → withdraw E key code amount db ≡ (
          if ltb_ℤ m x
          then (err (bad_request (codes "Insufficient collateral balance")), db)
          else if validate_withdraw_preserves_health E u.id (to_text (m -ℤ x)) db
          then save_collateral E (record p { amount = to_text (m -ℤ x) }) db
          else (err (bad_request (codes "Withdrawal would make health factor too low")), db))
  unfolding withdraw
  withdraw-sub h i j = ground arith

  withdraw-unread :
      {p : CollateralPosition}
      → collateral_of E u.id a.id db ≡ some p
      → bigint p.amount ≡ none
      → withdraw E key code amount db ≡ (err syntax_error, db)
  unfolding withdraw
  withdraw-unread h i = ground arith

-- The collateral of a database, as a ledger.
module _ (E : Env) (value : Text → Option ℤ) where
  abbrev pub collateral_positions : Positions CollateralPosition
  collateral_positions = record {
    table = E.collaterals;
    id = λ p. p.id;
    user_id = λ p. p.user_id;
    asset_id = λ p. p.asset_id;
    amount = λ p. p.amount;
    value = value;
  }

  abbrev pub CollateralLaws : (CollateralPosition → CollateralPosition) → Type 0
  CollateralLaws = PositionLaws collateral_positions

  abbrev pub pledged : Text → Text → Db E → Option ℤ
  pledged u a db = entry collateral_positions u a db.collaterals

  -- From one database to the next, one balance becomes `m` and the others stay.
  abbrev pub SetsCollateral : Text → Text → ℤ → Db E → Db E → Type 0
  SetsCollateral u a m db db' = Sets collateral_positions u a m db.collaterals db'.collaterals

module _ (E : Env) (value : Text → Option ℤ) (read_back : CollateralPosition → CollateralPosition)
    (laws : CollateralLaws E value read_back) (db : Db E) {db' : Db E}
    {p' : CollateralPosition} where
  -- A write of a position that is there with another amount.
  rewritten :
      (u a : Text) (p : CollateralPosition) (m : ℤ)
      → collateral_of E u a db ≡ some p
      → save_collateral E (record p { amount = to_text m }) db ≡ (ok p', db')
      → SetsCollateral E value u a m db db'
  rewritten u a p m h done =
      let q : CollateralPosition = record p { amount = to_text m } in
      let (t, written, after) = saved_ok _ (E.collaterals.save q db.collaterals) db done in
      rw after (
        write_found (collateral_positions E value) laws u a q db.collaterals m h refl refl refl
          (bigint-to_text m) written)

  module _ (key code amount : Text) {u : User} {a : Asset} {x : ℤ}
      (asset : active_asset E code db ≡ some a) (user : user_by_key E key db ≡ some u)
      (number : bigint amount ≡ some x) where
    opened-Sets :
        collateral_of E u.id a.id db ≡ none
        → save_collateral E (opened u a amount) db ≡ (ok p', db')
        → SetsCollateral E value u.id a.id (pos 0 +ℤ x) db db'
    opened-Sets absent done =
        let (t, written, after) =
          saved_ok _ (E.collaterals.save (opened u a amount) db.collaterals) db done in
        let same : x ≡ pos 0 +ℤ x = omega int_laws in
        rw after (
          write_absent (collateral_positions E value) laws (opened u a amount) db.collaterals
            (pos 0 +ℤ x) absent (number ∙ ap some same) written)

    -- For an active asset, a user who exists, an amount that `BigInt` reads and a table with the
    -- laws of positions: a deposit that returns adds its amount to the balance, or opens a balance
    -- of that amount, and changes no other balance.
    pub deposit-Sets :
        deposit E key code amount db ≡ (ok p', db')
        → SetsCollateral E value u.id a.id (held (pledged E value u.id a.id db) +ℤ x) db db'
    deposit-Sets done = elim (Option-cases (collateral_of E u.id a.id db)) [
      | inl absent ↦
          rw absent
            (opened-Sets absent (sym (deposit-new E key code amount db asset user absent) ∙ done))
      | inr (q, present) ↦ elim (Option-cases (bigint q.amount)) [
        | inl unread ↦ cc (deposit-unread E key code amount db asset user present unread)
        | inr (m, read) ↦
            rw (present, laws.value-bigint q.amount read)
              (rewritten u.id a.id q (m +ℤ x) present
                (sym (deposit-add E key code amount db asset user present read number) ∙ done))
      ]
    ]

    -- What was read of a balance is what it stands for.
    reads :
        (q : CollateralPosition) {m : ℤ}
        → collateral_of E u.id a.id db ≡ some q
        → pledged E value u.id a.id db ≡ some m
        → withdraw E key code amount db ≡ (ok p', db')
        → bigint q.amount ≡ some m
    reads q present balance done = elim (Option-cases (bigint q.amount)) [
      | inl unread ↦ cc (withdraw-unread E key code amount db asset user present unread)
      | inr (m', read) ↦ ground (arith, laws.value-bigint q.amount read)
    ]

    -- For an active asset, a user who exists, an amount that `BigInt` reads and a table with the
    -- laws of positions: a withdrawal that returns is at most the balance, passed the health check
    -- on the positions as they stood before it, takes its amount from the balance and changes no
    -- other balance, where the position has a balance.
    pub withdraw-SetsCollateral :
        {m : ℤ}
        → pledged E value u.id a.id db ≡ some m
        → withdraw E key code amount db ≡ (ok p', db')
        → (x ≤ℤ m)
          × (validate_withdraw_preserves_health E u.id (to_text (m -ℤ x)) db ≡ true)
          × SetsCollateral E value u.id a.id (m -ℤ x) db db'
    withdraw-SetsCollateral {m} balance done = elim (Option-cases (collateral_of E u.id a.id db)) [
      | inl absent ↦ cc (rw absent at balance)
      | inr (q, present) ↦
          let read = reads q present balance done in
          let step =
            sym (withdraw-sub E key code amount db asset user present read number) ∙ done in
          elim (Bool-cases (ltb_ℤ m x)) [
            | inl short ↦ cc (rw short at step)
            | inr covered ↦
                let next = rw covered at step in
                elim (Bool-cases
                  (validate_withdraw_preserves_health E u.id (to_text (m -ℤ x)) db)) [
                    | inr unhealthy ↦ cc (rw unhealthy at next)
                    | inl healthy ↦ (
                      ground arith,
                      healthy,
                      rewritten u.id a.id q (m -ℤ x) present (rw healthy at next),
                    )
                  ]
          ]
    ]
