-- ===== src/Lending/Ledger.antt =====
-- Supplies and withdrawals as moves of a ledger of integer balances.
use soro_lend.Prelude.{
  ℕ, suc, ◌+◌, ◌≡◌, refl, ap, sym, ◌∙◌, inl, inr, Option, none, some, arith, if◌then◌else◌,
  Option-cases, Bool-cases, [],
}
use soro_lend.Prelude.Int.{ℤ, pos, negsuc, ◌+ℤ◌, ◌-ℤ◌, ◌≤ℤ◌, ltb_ℤ, int_laws}
use soro_lend.Text.{Text, codes}
use soro_lend.Text.Decimal.{bigint, to_text}
use soro_lend.Text.Decimal.RoundTrip.{bigint-to_text}
use soro_lend.Runtime.{ok, err, bad_request, syntax_error}
use soro_lend.Schema.{User, Asset, SupplyPosition}
use soro_lend.Store.{saved_ok, Env, Db, save_supply, supply_of, user_by_key, active_asset}
use soro_lend.Store.Positions.{
  PositionLaws, Positions, Sets, entry, held, write_found, write_absent,
}
use soro_lend.Lending.{supply, withdraw, first_index}

-- The `create` of `supply`.
abbrev pub opened : User → Asset → Text → SupplyPosition
opened u a amount = record {
  id = [];
  user_id = u.id;
  asset_id = a.id;
  amount = amount;
  shares = amount;
  supply_index = first_index;
}

module _ (E : Env) (key code amount : Text) (db : Db E) {u : User} {a : Asset}
    (asset : active_asset E code db ≡ some a) (user : user_by_key E key db ≡ some u) where
  pub supply-new :
      supply_of E u.id a.id db ≡ none
      → supply E key code amount db ≡ save_supply E (opened u a amount) db
  unfolding supply
  supply-new h = ground arith

  pub supply-add :
      {p : SupplyPosition} {m x : ℤ}
      → supply_of E u.id a.id db ≡ some p
      → bigint p.amount ≡ some m
      → bigint amount ≡ some x
      → supply E key code amount db ≡ save_supply E (record p { amount = to_text (m +ℤ x) }) db
  unfolding supply
  supply-add h i j = ground arith

  -- For an active asset, a user who exists and a position that is there: if `BigInt` does not read
  -- the stored amount, a supply throws a SyntaxError and changes nothing.
  pub supply-unread :
      {p : SupplyPosition}
      → supply_of E u.id a.id db ≡ some p
      → bigint p.amount ≡ none
      → supply E key code amount db ≡ (err syntax_error, db)
  unfolding supply
  supply-unread h i = ground arith

  pub withdraw-sub :
      {p : SupplyPosition} {m x : ℤ}
      → supply_of E u.id a.id db ≡ some p
      → bigint p.amount ≡ some m
      → bigint amount ≡ some x
      → withdraw E key code amount db ≡ (
          if ltb_ℤ m x
          then (err (bad_request (codes "Insufficient supply balance")), db)
          else save_supply E (record p { amount = to_text (m -ℤ x) }) db)
  unfolding withdraw
  withdraw-sub h i j = ground arith

  withdraw-unread :
      {p : SupplyPosition}
      → supply_of E u.id a.id db ≡ some p
      → bigint p.amount ≡ none
      → withdraw E key code amount db ≡ (err syntax_error, db)
  unfolding withdraw
  withdraw-unread h i = ground arith

  -- For an active asset, a user who exists and a stored amount that is not negative: a withdrawal
  -- of a negative amount passes the guard and saves the balance with the amount added.
  pub withdraw_negative :
      {p : SupplyPosition} {m k : ℕ}
      → supply_of E u.id a.id db ≡ some p
      → bigint p.amount ≡ some (pos m)
      → bigint amount ≡ some (negsuc k)
      → withdraw E key code amount db
        ≡ save_supply E (record p { amount = to_text (pos (m + suc k)) }) db
  withdraw_negative {p} {m} {k} h i j =
      let more : pos m -ℤ negsuc k ≡ pos (m + suc k) = omega int_laws in
      withdraw-sub h i j ∙ ground (arith, more)

-- The supplied balances of a database, as a ledger.
module _ (E : Env) (value : Text → Option ℤ) where
  abbrev pub supply_positions : Positions SupplyPosition
  supply_positions = record {
    table = E.supplies;
    id = λ p. p.id;
    user_id = λ p. p.user_id;
    asset_id = λ p. p.asset_id;
    amount = λ p. p.amount;
    value = value;
  }

  abbrev pub SupplyLaws : (SupplyPosition → SupplyPosition) → Type 0
  SupplyLaws = PositionLaws supply_positions

  abbrev pub supplied : Text → Text → Db E → Option ℤ
  supplied u a db = entry supply_positions u a db.supplies

  -- From one database to the next, one balance becomes `m` and the others stay.
  abbrev pub SetsSupply : Text → Text → ℤ → Db E → Db E → Type 0
  SetsSupply u a m db db' = Sets supply_positions u a m db.supplies db'.supplies

module _ (E : Env) (value : Text → Option ℤ) (read_back : SupplyPosition → SupplyPosition)
    (laws : SupplyLaws E value read_back) (db : Db E) {db' : Db E} {p' : SupplyPosition} where
  -- A write of a position that is there with another amount.
  rewritten :
      (u a : Text) (p : SupplyPosition) (m : ℤ)
      → supply_of E u a db ≡ some p
      → save_supply E (record p { amount = to_text m }) db ≡ (ok p', db')
      → SetsSupply E value u a m db db'
  rewritten u a p m h done =
      let q : SupplyPosition = record p { amount = to_text m } in
      let (t, written, after) = saved_ok _ (E.supplies.save q db.supplies) db done in
      rw after (
        write_found (supply_positions E value) laws u a q db.supplies m h refl refl refl
          (bigint-to_text m) written)

  module _ (key code amount : Text) {u : User} {a : Asset} {x : ℤ}
      (asset : active_asset E code db ≡ some a) (user : user_by_key E key db ≡ some u)
      (number : bigint amount ≡ some x) where
    -- For an active asset, a user who exists, an amount that `BigInt` reads and a table with the
    -- laws of positions: a supply that returns adds its amount to the balance, or opens a balance
    -- of that amount, and changes no other balance.
    pub supply-Sets :
        supply E key code amount db ≡ (ok p', db')
        → SetsSupply E value u.id a.id (held (supplied E value u.id a.id db) +ℤ x) db db'
    supply-Sets done = elim (Option-cases (supply_of E u.id a.id db)) [
      | inl absent ↦
          let (t, written, after) =
            saved_ok _ (E.supplies.save (opened u a amount) db.supplies) db
              (sym (supply-new E key code amount db asset user absent) ∙ done) in
          rw (after, absent)
            (write_absent (supply_positions E value) laws (opened u a amount) db.supplies
              (pos 0 +ℤ x) absent (number ∙ ap some (omega int_laws)) written)
      | inr (q, present) ↦ elim (Option-cases (bigint q.amount)) [
        | inl unread ↦ cc (supply-unread E key code amount db asset user present unread)
        | inr (m, read) ↦
            rw (present, laws.value-bigint q.amount read)
              (rewritten u.id a.id q (m +ℤ x) present
                (sym (supply-add E key code amount db asset user present read number) ∙ done))
      ]
    ]

    -- What was read of a balance is what it stands for.
    reads :
        (q : SupplyPosition) {m : ℤ}
        → supply_of E u.id a.id db ≡ some q
        → supplied E value u.id a.id db ≡ some m
        → withdraw E key code amount db ≡ (ok p', db')
        → bigint q.amount ≡ some m
    reads q present balance done = elim (Option-cases (bigint q.amount)) [
      | inl unread ↦ cc (withdraw-unread E key code amount db asset user present unread)
      | inr (m', read) ↦ ground (arith, laws.value-bigint q.amount read)
    ]

    -- For an active asset, a user who exists, an amount that `BigInt` reads and a table with the
    -- laws of positions: a withdrawal that returns found a balance of at least its amount, takes
    -- the amount from it and changes no other balance, where the position has a balance.
    pub withdraw-Sets :
        {m : ℤ}
        → supplied E value u.id a.id db ≡ some m
        → withdraw E key code amount db ≡ (ok p', db')
        → (x ≤ℤ m) × SetsSupply E value u.id a.id (m -ℤ x) db db'
    withdraw-Sets {m} balance done = elim (Option-cases (supply_of E u.id a.id db)) [
      | inl absent ↦ cc (rw absent at balance)
      | inr (q, present) ↦
          let read = reads q present balance done in
          let step =
            sym (withdraw-sub E key code amount db asset user present read number) ∙ done in
          elim (Bool-cases (ltb_ℤ m x)) [
            | inl short ↦ cc (rw short at step)
            | inr covered ↦
                (ground arith, rewritten u.id a.id q (m -ℤ x) present (rw covered at step))
          ]
    ]
