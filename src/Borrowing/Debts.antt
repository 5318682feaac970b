-- ===== src/Borrowing/Debts.antt =====
-- Borrows and repayments as moves of a ledger of integer debts.
use soro_lend.Prelude.{
  ◌≡◌, refl, ap, sym, ◌∙◌, inl, inr, true, false, Option, none, some, arith, if◌then◌else◌,
  Option-cases, Bool-cases, [],
}
use soro_lend.Prelude.Int.{ℤ, pos, ◌+ℤ◌, ◌-ℤ◌, ◌≤ℤ◌, ltb_ℤ, int_laws}
use soro_lend.Text.{Text, codes}
use soro_lend.Text.Decimal.{bigint, to_text}
use soro_lend.Text.Decimal.RoundTrip.{bigint-to_text}
use soro_lend.Runtime.{ok, err, bad_request, syntax_error}
use soro_lend.Schema.{User, Asset, BorrowPosition}
use soro_lend.Store.{saved_ok, Env, Db, save_borrow, borrow_of, user_by_key, active_asset}
use soro_lend.Store.Positions.{
  PositionLaws, Positions, Sets, entry, held, write_found, write_absent,
}
use soro_lend.Borrowing.{validate_health_for_borrow, borrow, repay}

-- The `create` of `borrow`.
abbrev pub opened : User → Asset → Text → BorrowPosition
opened u a amount = record {
  id = [];
  user_id = u.id;
  asset_id = a.id;
  amount = amount;
  interest_index = codes "1000000000000000000";
  accrued_interest = codes "0";
}

abbrev too_low : Text
too_low = codes "Borrow would put health factor below minimum threshold"

module _ (E : Env) (key code amount : Text) (db : Db E) {u : User} {a : Asset}
    (asset : active_asset E code db ≡ some a) (user : user_by_key E key db ≡ some u) where
  pub borrow-new :
      borrow_of E u.id a.id db ≡ none
      → borrow E key code amount db ≡ (
          if validate_health_for_borrow E u.id a amount db
          then save_borrow E (opened u a amount) db
          else (err (bad_request too_low), db))
  unfolding borrow
  borrow-new h = ground arith

  pub borrow-add :
      {p : BorrowPosition} {m x : ℤ}
      → borrow_of E u.id a.id db ≡ some p
      → bigint p.amount ≡ some m
      → bigint amount ≡ some x
      → borrow E key code amount db ≡ (
          if validate_health_for_borrow E u.id a amount db
          then save_borrow E (record p { amount = to_text (m +ℤ x) }) db
          else (err (bad_request too_low), db))
  unfolding borrow
  borrow-add h i j = ground arith

  -- No borrow passes a failed health check, whatever the position.
  borrow-unhealthy :
      validate_health_for_borrow E u.id a amount db ≡ false
      → borrow E key code amount db ≡ (err (bad_request too_low), db)
  unfolding borrow
  borrow-unhealthy h = ground arith

  borrow-unread :
      {p : BorrowPosition}
      → borrow_of E u.id a.id db ≡ some p
      → bigint p.amount ≡ none
      → borrow E key code amount db ≡ (
          if validate_health_for_borrow E u.id a amount db
          then (err syntax_error, db)
          else (err (bad_request too_low), db))
  unfolding borrow
  borrow-unread h i = ground arith

  pub repay-sub :
      {p : BorrowPosition} {m x : ℤ}
      → borrow_of E u.id a.id db ≡ some p
      → bigint p.amount ≡ some m
      → bigint amount ≡ some x
      → repay E key code amount db ≡ (
          if ltb_ℤ m x
          then (err (bad_request (codes "Repay amount exceeds outstanding debt")), db)
          else save_borrow E (record p { amount = to_text (m -ℤ x) }) db)
  unfolding repay
  repay-sub h i j = ground arith

  repay-unread :
      {p : BorrowPosition}
      → borrow_of E u.id a.id db ≡ some p
      → bigint p.amount ≡ none
      → repay E key code amount db ≡ (err syntax_error, db)
  unfolding repay
  repay-unread h i = ground arith

-- The debts of a database, as a ledger.
module _ (E : Env) (value : Text → Option ℤ) where
  abbrev pub borrow_positions : Positions BorrowPosition
  borrow_positions = record {
    table = E.borrows;
    id = λ p. p.id;
    user_id = λ p. p.user_id;
    asset_id = λ p. p.asset_id;
    amount = λ p. p.amount;
    value = value;
  }

  abbrev pub BorrowLaws : (BorrowPosition → BorrowPosition) → Type 0
  BorrowLaws = PositionLaws borrow_positions

  abbrev pub owed : Text → Text → Db E → Option ℤ
  owed u a db = entry borrow_positions u a db.borrows

  -- From one database to the next, one debt becomes `m` and the others stay.
  abbrev pub SetsDebt : Text → Text → ℤ → Db E → Db E → Type 0
  SetsDebt u a m db db' = Sets borrow_positions u a m db.borrows db'.borrows

module _ (E : Env) (value : Text → Option ℤ) (read_back : BorrowPosition → BorrowPosition)
    (laws : BorrowLaws E value read_back) (db : Db E) {db' : Db E} {p' : BorrowPosition} where
  -- A write of a position that is there with another amount.
  rewritten :
      (u a : Text) (p : BorrowPosition) (m : ℤ)
      → borrow_of E u a db ≡ some p
      → save_borrow E (record p { amount = to_text m }) db ≡ (ok p', db')
      → SetsDebt E value u a m db db'
  rewritten u a p m h done =
      let q : BorrowPosition = record p { amount = to_text m } in
      let (t, written, after) = saved_ok _ (E.borrows.save q db.borrows) db done in
      rw after (
        write_found (borrow_positions E value) laws u a q db.borrows m h refl refl refl
          (bigint-to_text m) written)

  module _ (key code amount : Text) {u : User} {a : Asset} {x : ℤ}
      (asset : active_asset E code db ≡ some a) (user : user_by_key E key db ≡ some u)
      (number : bigint amount ≡ some x) where
    opened-Sets :
        borrow_of E u.id a.id db ≡ none
        → save_borrow E (opened u a amount) db ≡ (ok p', db')
        → SetsDebt E value u.id a.id (pos 0 +ℤ x) db db'
    opened-Sets absent done =
        let (t, written, after) =
          saved_ok _ (E.borrows.save (opened u a amount) db.borrows) db done in
        let same : x ≡ pos 0 +ℤ x = omega int_laws in
        rw after (
          write_absent (borrow_positions E value) laws (opened u a amount) db.borrows (pos 0 +ℤ x)
            absent (number ∙ ap some same) written)

    -- For an active asset, a user who exists, an amount that `BigInt` reads and a table with the
    -- laws of positions: a borrow that returns passed the health check, adds its amount to the
    -- debt, or opens a debt of that amount, and changes no other debt.
    pub borrow-Sets :
        borrow E key code amount db ≡ (ok p', db')
        → (validate_health_for_borrow E u.id a amount db ≡ true)
          × SetsDebt E value u.id a.id (held (owed E value u.id a.id db) +ℤ x) db db'
    borrow-Sets done = elim (Bool-cases (validate_health_for_borrow E u.id a amount db)) [
      | inr unhealthy ↦ cc (borrow-unhealthy E key code amount db asset user unhealthy)
      | inl healthy ↦ (
        healthy,
        elim (Option-cases (borrow_of E u.id a.id db)) [
          | inl absent ↦ rw absent (
              opened-Sets absent
                (rw healthy at (sym (borrow-new E key code amount db asset user absent) ∙ done)))
          | inr (q, present) ↦ elim (Option-cases (bigint q.amount)) [
            | inl unread ↦ cc (
                rw healthy at
                  (sym (borrow-unread E key code amount db asset user present unread) ∙ done))
            | inr (m, read) ↦
                rw (present, laws.value-bigint q.amount read)
                  (rewritten u.id a.id q (m +ℤ x) present (
                    rw healthy at (
                      sym (borrow-add E key code amount db asset user present read number) ∙ done)))
          ]
        ],
      )
    ]

    -- What was read of a balance is what it stands for.
    reads :
        (q : BorrowPosition) {m : ℤ}
        → borrow_of E u.id a.id db ≡ some q
        → owed E value u.id a.id db ≡ some m
        → repay E key code amount db ≡ (ok p', db')
        → bigint q.amount ≡ some m
    reads q present balance done = elim (Option-cases (bigint q.amount)) [
      | inl unread ↦ cc (repay-unread E key code amount db asset user present unread)
      | inr (m', read) ↦ ground (arith, laws.value-bigint q.amount read)
    ]

    -- For an active asset, a user who exists, an amount that `BigInt` reads and a table with the
    -- laws of positions: a repayment that returns is at most the debt, takes its amount from it
    -- and changes no other debt, where the position has a debt.
    pub repay-Sets :
        {m : ℤ}
        → owed E value u.id a.id db ≡ some m
        → repay E key code amount db ≡ (ok p', db')
        → (x ≤ℤ m) × SetsDebt E value u.id a.id (m -ℤ x) db db'
    repay-Sets {m} debt done = elim (Option-cases (borrow_of E u.id a.id db)) [
      | inl absent ↦ cc (rw absent at debt)
      | inr (q, present) ↦
          let read = reads q present debt done in
          let step = sym (repay-sub E key code amount db asset user present read number) ∙ done in
          elim (Bool-cases (ltb_ℤ m x)) [
            | inl short ↦ cc (rw short at step)
            | inr covered ↦
                (ground arith, rewritten u.id a.id q (m -ℤ x) present (rw covered at step))
          ]
    ]
