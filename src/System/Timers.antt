-- ===== src/System/Timers.antt =====
-- What the timers leave alone.
use soro_lend.Prelude.{◌≡◌, refl, List, [], ◌∷◌, inl, inr, Option-cases}
use soro_lend.Runtime.{ok, err, rejected}
use soro_lend.Schema.{Asset}
use soro_lend.Store.{Env, Db, save_snapshot, bind_step, bind_stop}
use soro_lend.Lending.Scheduler.{accrue_each, sync_interest_accrual}
use soro_lend.Indexer.Poll.{blank_snapshot, snapshot_each, snapshot_markets}

-- The tables that timers leave alone are as they were.
abbrev pub KeepsAll : (E : Env) → Db E → Db E → Type 0
KeepsAll E db db' =
    (db'.assets ≡ db.assets)
    × (db'.supplies ≡ db.supplies)
    × (db'.borrows ≡ db.borrows)
    × (db'.collaterals ≡ db.collaterals)
    × (db'.proposals ≡ db.proposals)

module _ (E : Env) where
  accrue_each-KeepsAll :
      (assets : List Asset) (db : Db E) → KeepsAll E db (accrue_each E assets db).1
  unfolding accrue_each
  accrue_each-KeepsAll [] db = (refl, refl, refl, refl, refl)
  accrue_each-KeepsAll (asset ∷ assets) db =
      elim (Option-cases (E.snapshots.save (blank_snapshot asset) db.snapshots)) [
        | inl refused ↦ rw refused (refl, refl, refl, refl, refl)
        | inr ((r, t), written) ↦
            rw written (accrue_each-KeepsAll assets (record db { snapshots = t }))
      ]

  snapshot_each-KeepsAll :
      (assets : List Asset) (db : Db E) → KeepsAll E db (snapshot_each E assets db).1
  unfolding snapshot_each
  snapshot_each-KeepsAll [] db = (refl, refl, refl, refl, refl)
  snapshot_each-KeepsAll (asset ∷ assets) db =
      elim (Option-cases (E.snapshots.save (blank_snapshot asset) db.snapshots)) [
        | inl refused ↦
            let stop : save_snapshot E (blank_snapshot asset) db ≡ (err rejected, db) =
              rw refused refl in
            rw
              (bind_stop (save_snapshot E (blank_snapshot asset)) (λ _. snapshot_each E assets) db
                stop)
              (refl, refl, refl, refl, refl)
        | inr ((r, t), written) ↦
            let step : save_snapshot E (blank_snapshot asset) db
                ≡ (ok r, record db { snapshots = t }) =
              rw written refl in
            rw
              (bind_step (save_snapshot E (blank_snapshot asset)) (λ _. snapshot_each E assets) db
                step)
              (snapshot_each-KeepsAll assets (record db { snapshots = t }))
      ]

  pub sync_interest_accrual-KeepsAll : (db : Db E) → KeepsAll E db (sync_interest_accrual E db).1
  unfolding sync_interest_accrual
  sync_interest_accrual-KeepsAll db =
      accrue_each-KeepsAll (E.assets.find (λ a. a.is_active) db.assets) db

  pub snapshot_markets-KeepsAll : (db : Db E) → KeepsAll E db (snapshot_markets E db)
  unfolding snapshot_markets
  snapshot_markets-KeepsAll db =
      snapshot_each-KeepsAll (E.assets.find (λ a. a.is_active) db.assets) db
