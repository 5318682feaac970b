-- ===== src/Indexer/Solvency.antt =====
-- Events of the contract leave no supply and no debt negative.
use soro_lend.Prelude.{
  ◌≡◌, refl, true, Option, some, arith, inl, inr, Option-cases, Bool-cases, if◌then◌else◌,
}
use soro_lend.Prelude.Int.{ℤ, pos, ltb_ℤ, ◌-ℤ◌}
use soro_lend.Text.{Text}
use soro_lend.Text.Decimal.{bigint}
use soro_lend.Schema.{User, Asset, SupplyPosition, BorrowPosition}
use soro_lend.Store.{Env, Db, save_supply, save_borrow, supply_of, borrow_of, bind_pure-db}
use soro_lend.Store.Positions.{Fits-found}
use soro_lend.Store.Natural.{is_natural, stored-Natural, is_natural-sub}
use soro_lend.Lending.{credited}
use soro_lend.Borrowing.{borrowed}
use soro_lend.Lending.Ledger.{supply_positions, SupplyLaws}
use soro_lend.Lending.Solvency.{NaturalSupplies, supplied_by, supplied_by-Natural, wrote}
use soro_lend.Borrowing.Debts.{borrow_positions, BorrowLaws}
use soro_lend.Borrowing.Solvency.{NaturalDebts, lent_to, lent_to-Natural}
use soro_lend.Borrowing.Solvency
use soro_lend.Indexer.{
  supply_indexed, borrow_indexed, IndexedEvent, withdraw, repay, report_of, reduced,
  handle_supply_event, handle_withdraw_event, handle_borrow_event, handle_repay_event, drawn,
  repaid,
}
use soro_lend.Indexer.Replay.{bigint-reduced}
use soro_lend.Indexer.Frame.{supply_rest, withdraw_rest, borrow_rest, repay_rest, located-cases}

is_natural-reduced :
    (m x : ℤ) → is_natural m ≡ true → is_natural (if ltb_ℤ m x then pos 0 else m -ℤ x) ≡ true
is_natural-reduced m x h = elim (Bool-cases (ltb_ℤ m x)) [
  | inl short ↦ rw short refl
  | inr covered ↦ rw covered (is_natural-sub m x covered)
]

module _ (E : Env) (value : Text → Option ℤ) {back : SupplyPosition → SupplyPosition}
    (laws : SupplyLaws E value back) where
  drawn-Natural :
      (u a amount : Text) (db : Db E)
      → NaturalSupplies E value db
      → NaturalSupplies E value (drawn E amount (supply_of E u a db) db).1
  unfolding drawn
  drawn-Natural u a amount db natural = elim (Option-cases (supply_of E u a db)) [
    | inl absent ↦ rw absent natural
    | inr (p, present) ↦ elim (Option-cases (bigint p.amount)) [
      | inl unread ↦ rw (present, unread) natural
      | inr (m, read) ↦ elim (Option-cases (bigint amount)) [
        | inl unread ↦ rw (present, read, unread) natural
        | inr (x, reads) ↦
            let q : SupplyPosition = record p { amount = reduced m x } in
            let old =
              stored-Natural (supply_positions E value) laws u a db.supplies natural present read in
            let after =
              wrote E value back laws q db
                (Fits-found (supply_positions E value) laws u a q db.supplies present refl refl
                  refl)
                (bigint-reduced m x) (is_natural-reduced m x old) natural in
            rw (present, read, reads, bind_pure-db (save_supply E q) (λ _. tt) db) after
      ]
    ]
  ]

  supply_rest-db :
      (u : User) (a : Asset) (event : IndexedEvent) (db : Db E)
      → (supply_rest E event u a db).1 ≡ (supplied_by E value back laws u a event.amount db).1
  unfolding supply_indexed credited
  supply_rest-db u a event db = ground arith

  -- A supply event of an amount that `BigInt` reads as a number that is not negative leaves no supply
  -- negative, whether it is reported or throws.
  pub handle_supply_event-Natural :
      (event : IndexedEvent) (db : Db E) {x : ℤ}
      → bigint event.amount ≡ some x
      → is_natural x ≡ true
      → NaturalSupplies E value db
      → NaturalSupplies E value (handle_supply_event E event db).1
  unfolding handle_supply_event
  handle_supply_event-Natural event db reads x_natural natural =
      elim (located-cases E event (supply_rest E event) db) [
        | inl (e, t, failed) ↦ rw failed natural
        | inr (u, a, t, goes_on) ↦
            rw (goes_on, supply_rest-db u a event (record db { users = t }))
              (supplied_by-Natural E value back laws u a event.amount (record db { users = t })
                reads x_natural natural)
      ]

  -- So does a withdraw event, of any amount.
  pub handle_withdraw_event-Natural :
      (event : IndexedEvent) (db : Db E)
      → NaturalSupplies E value db
      → NaturalSupplies E value (handle_withdraw_event E event db).1
  unfolding handle_withdraw_event
  handle_withdraw_event-Natural event db natural =
      elim (located-cases E event (withdraw_rest E event) db) [
        | inl (e, t, failed) ↦ rw failed natural
        | inr (u, a, t, goes_on) ↦
            let db₁ : Db E = record db { users = t } in
            rw
              (
                goes_on,
                bind_pure-db (drawn E event.amount (supply_of E u.id a.id db₁))
                    (λ _. report_of withdraw event) db₁,
              )
              (drawn-Natural u.id a.id event.amount db₁ natural)
      ]

module _ (E : Env) (value : Text → Option ℤ) {back : BorrowPosition → BorrowPosition}
    (laws : BorrowLaws E value back) where
  repaid-Natural :
      (u a amount : Text) (db : Db E)
      → NaturalDebts E value db
      → NaturalDebts E value (repaid E amount (borrow_of E u a db) db).1
  unfolding repaid
  repaid-Natural u a amount db natural = elim (Option-cases (borrow_of E u a db)) [
    | inl absent ↦ rw absent natural
    | inr (p, present) ↦ elim (Option-cases (bigint p.amount)) [
      | inl unread ↦ rw (present, unread) natural
      | inr (m, read) ↦ elim (Option-cases (bigint amount)) [
        | inl unread ↦ rw (present, read, unread) natural
        | inr (x, reads) ↦
            let q : BorrowPosition = record p { amount = reduced m x } in
            let old =
              stored-Natural (borrow_positions E value) laws u a db.borrows natural present read in
            let after =
              Solvency.wrote E value back laws q db
                (Fits-found (borrow_positions E value) laws u a q db.borrows present refl refl refl)
                (bigint-reduced m x) (is_natural-reduced m x old) natural in
            rw (present, read, reads, bind_pure-db (save_borrow E q) (λ _. tt) db) after
      ]
    ]
  ]

  borrow_rest-db :
      (u : User) (a : Asset) (event : IndexedEvent) (db : Db E)
      → (borrow_rest E event u a db).1 ≡ (lent_to E value back laws u a event.amount db).1
  unfolding borrow_indexed borrowed
  borrow_rest-db u a event db = ground arith

  -- The same for debts: a borrow event of such an amount, and a repay event of any amount.
  pub handle_borrow_event-Natural :
      (event : IndexedEvent) (db : Db E) {x : ℤ}
      → bigint event.amount ≡ some x
      → is_natural x ≡ true
      → NaturalDebts E value db
      → NaturalDebts E value (handle_borrow_event E event db).1
  unfolding handle_borrow_event
  handle_borrow_event-Natural event db reads x_natural natural =
      elim (located-cases E event (borrow_rest E event) db) [
        | inl (e, t, failed) ↦ rw failed natural
        | inr (u, a, t, goes_on) ↦
            rw (goes_on, borrow_rest-db u a event (record db { users = t }))
              (lent_to-Natural E value back laws u a event.amount (record db { users = t }) reads
                x_natural natural)
      ]

  pub handle_repay_event-Natural :
      (event : IndexedEvent) (db : Db E)
      → NaturalDebts E value db
      → NaturalDebts E value (handle_repay_event E event db).1
  unfolding handle_repay_event
  handle_repay_event-Natural event db natural =
      elim (located-cases E event (repay_rest E event) db) [
        | inl (e, t, failed) ↦ rw failed natural
        | inr (u, a, t, goes_on) ↦
            let db₁ : Db E = record db { users = t } in
            rw
              (
                goes_on,
                bind_pure-db (repaid E event.amount (borrow_of E u.id a.id db₁))
                    (λ _. report_of repay event) db₁,
              )
              (repaid-Natural u.id a.id event.amount db₁ natural)
      ]
