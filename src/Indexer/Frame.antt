-- ===== src/Indexer/Frame.antt =====
-- What the handlers of contract events have in common, and what they leave alone.
use soro_lend.Prelude.{◌≡◌, ◌∙◌, ◌++◌, arith, inl, inr, Option-cases, ◌⊎◌}
use soro_lend.Text.{codes}
use soro_lend.Runtime.{err, rejected, Error, plain}
use soro_lend.Schema.{User, Asset}
use soro_lend.Store.{
  Env, Db, Action, ◌>>=◌, ◌>>◌, pure, gets, save_supply, save_borrow, supply_of, borrow_of,
  active_asset, bind_step, bind_stop,
}
use soro_lend.Accounts.{find_or_create_user, find_or_create_user-cases}
use soro_lend.Indexer.{
  IndexedEvent, Report, supply, borrow, withdraw, repay, report_of, handle_supply_event,
  handle_withdraw_event, handle_borrow_event, handle_repay_event, drawn, repaid, find_indexed_asset,
  supply_indexed, borrow_indexed,
}

module _ (E : Env) where
  abbrev pub supply_rest : IndexedEvent → User → Asset → Action E Report
  supply_rest event user asset = do
    found ← gets (supply_of E user.id asset.id)
    position ← supply_indexed E user asset event.amount found
    save_supply E position
    pure (report_of supply event)

  abbrev pub withdraw_rest : IndexedEvent → User → Asset → Action E Report
  withdraw_rest event user asset = do
    found ← gets (supply_of E user.id asset.id)
    drawn E event.amount found
    pure (report_of withdraw event)

  abbrev pub borrow_rest : IndexedEvent → User → Asset → Action E Report
  borrow_rest event user asset = do
    found ← gets (borrow_of E user.id asset.id)
    position ← borrow_indexed E user asset event.amount found
    save_borrow E position
    pure (report_of borrow event)

  abbrev pub repay_rest : IndexedEvent → User → Asset → Action E Report
  repay_rest event user asset = do
    found ← gets (borrow_of E user.id asset.id)
    repaid E event.amount found
    pure (report_of repay event)

  -- What the handlers have in common: the user and the asset of the event, then the rest.
  abbrev pub located : {A : Type 0} → IndexedEvent → (User → Asset → Action E A) → Action E A
  located event rest = do
    user ← find_or_create_user E event.user
    asset ← find_indexed_asset E event.asset
    rest user asset

  pub located-cases :
      {A : Type 0} (event : IndexedEvent) (rest : User → Asset → Action E A) (db : Db E)
      → ((e : Error) × (t : E.users.Rows) × (located event rest db
            ≡ (err e, record db { users = t })))
        ⊎ ((u : User) × (a : Asset) × (t : E.users.Rows) × (located event rest db
              ≡ rest u a (record db { users = t })))
  unfolding find_indexed_asset
  located-cases {A} event rest db = elim (find_or_create_user-cases E event.user db) [
    | inl refused ↦
        inl (rejected, db.users, bind_stop (find_or_create_user E event.user) next db refused)
    | inr (u, t, there) ↦ elim (Option-cases (active_asset E event.asset db)) [
      | inl missing ↦ inl (
        plain (codes "Asset not found: " ++ event.asset),
        t,
        bind_step (find_or_create_user E event.user) next db there
            ∙ bind_stop (find_indexed_asset E event.asset) (rest u) (record db { users = t })
                (ground arith),
      )
      | inr (a, asset) ↦ inr (
        u,
        a,
        t,
        bind_step (find_or_create_user E event.user) next db there
            ∙ bind_step (find_indexed_asset E event.asset) (rest u) (record db { users = t })
                (ground arith),
      )
    ]
  ]
    where
      next : User → Action E A
      next user = do asset ← find_indexed_asset E event.asset; rest user asset

-- Supply and withdraw events write supplies only, borrow and repay events debts only, besides users.
module _ (E : Env) (event : IndexedEvent) (db : Db E) where
  pub handle_supply_event-keeps :
      let db' = (handle_supply_event E event db).1 in
      (db'.borrows ≡ db.borrows)
      × (db'.collaterals ≡ db.collaterals)
      × (db'.assets ≡ db.assets)
      × (db'.proposals ≡ db.proposals)
  unfolding handle_supply_event
  handle_supply_event-keeps = ground arith

  pub handle_withdraw_event-keeps :
      let db' = (handle_withdraw_event E event db).1 in
      (db'.borrows ≡ db.borrows)
      × (db'.collaterals ≡ db.collaterals)
      × (db'.assets ≡ db.assets)
      × (db'.proposals ≡ db.proposals)
  unfolding handle_withdraw_event
  handle_withdraw_event-keeps = ground arith

  pub handle_borrow_event-keeps :
      let db' = (handle_borrow_event E event db).1 in
      (db'.supplies ≡ db.supplies)
      × (db'.collaterals ≡ db.collaterals)
      × (db'.assets ≡ db.assets)
      × (db'.proposals ≡ db.proposals)
  unfolding handle_borrow_event
  handle_borrow_event-keeps = ground arith

  pub handle_repay_event-keeps :
      let db' = (handle_repay_event E event db).1 in
      (db'.supplies ≡ db.supplies)
      × (db'.collaterals ≡ db.collaterals)
      × (db'.assets ≡ db.assets)
      × (db'.proposals ≡ db.proposals)
  unfolding handle_repay_event
  handle_repay_event-keeps = ground arith
