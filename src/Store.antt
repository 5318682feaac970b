-- ===== src/Store.antt =====
-- The database behind TypeORM's repositories, and a method call as state passing with exceptions.
-- The tables are a parameter: `Table` is what the services use of a `Repository`.
pub mod Positions
pub mod Natural
use soro_lend.Prelude.{
  ◌≡◌, refl, sym, arith, Bool, ◌&&◌, Option, none, some, List, [], ◌∷◌, if◌then◌else◌,
}
use soro_lend.Prelude.Int.{ℤ}
use soro_lend.Text.{Text, text_eq}
use soro_lend.Text.Decimal.{bigint}
use soro_lend.Runtime.{Number, Error, Result, ok, err, rejected, syntax_error}
use soro_lend.Schema.{
  User, Asset, SupplyPosition, BorrowPosition, CollateralPosition, LiquidationEvent, MarketSnapshot,
  PriceFeed, Proposal, Vote,
}

pub record Table (Row : Type 0) : Type 1 where
  pub Rows : Type 0
  -- `findOne({ where })`
  pub find_one : (Row → Bool) → Rows → Option Row
  -- `find({ where })`
  pub find : (Row → Bool) → Rows → List Row
  -- `find({ where, order })`, the latest creation date first
  pub find_newest : (Row → Bool) → Rows → List Row
  -- the same, the earliest first
  pub find_oldest : (Row → Bool) → Rows → List Row
  -- `save(row)`: the row as the call leaves it, with what the database filled in, and the table
  -- after; `none` where the database refuses the row
  pub save : Row → Rows → Option (Row × Rows)
  -- `update(criteria, changes)`, on every row that meets the criteria
  pub update : (Row → Bool) → (Row → Row) → Rows → Option Rows

-- All that the services are given: numbers and tables.
pub record Env : Type 1 where
  pub num : Number
  pub users : Table User
  pub assets : Table Asset
  pub supplies : Table SupplyPosition
  pub borrows : Table BorrowPosition
  pub collaterals : Table CollateralPosition
  pub liquidations : Table LiquidationEvent
  pub snapshots : Table MarketSnapshot
  pub feeds : Table PriceFeed
  pub proposals : Table Proposal
  pub votes : Table Vote

-- The contents of the database.
pub record Db (E : Env) : Type 0 where
  pub users : E.users.Rows
  pub assets : E.assets.Rows
  pub supplies : E.supplies.Rows
  pub borrows : E.borrows.Rows
  pub collaterals : E.collaterals.Rows
  pub liquidations : E.liquidations.Rows
  pub snapshots : E.snapshots.Rows
  pub feeds : E.feeds.Rows
  pub proposals : E.proposals.Rows
  pub votes : E.votes.Rows

-- A method call. What was written stays written when a later step throws.
abbrev pub Action : Env → Type 0 → Type 0
Action E A = Db E → Result A × Db E

module _ {E : Env} where
  infixl 5 ◌>>=◌ ◌>>◌
  abbrev pub ◌>>=◌ : {A B : Type 0} → Action E A → (A → Action E B) → Action E B
  ◌>>=◌ m f db = let (r, db') = m db in elim r [ ok a ↦ f a db' | err e ↦ (err e, db') ]

  abbrev pub ◌>>◌ : {A B : Type 0} → Action E A → Action E B → Action E B
  m >> k = m >>= λ _. k

  abbrev pub pure : {A : Type 0} → A → Action E A
  pure a db = (ok a, db)

  abbrev pub raise : {A : Type 0} → Error → Action E A
  raise e db = (err e, db)

  abbrev pub gets : {A : Type 0} → (Db E → A) → Action E A
  gets f db = (ok (f db), db)

  abbrev pub or_raise : {A : Type 0} → Error → Option A → Action E A
  or_raise e none = raise e
  or_raise e (some a) = pure a

  abbrev pub raise_if : Bool → Error → Action E (Unit {0})
  raise_if c e db = (if c then err e else ok tt, db)

  -- `BigInt(text)`
  abbrev pub to_bigint : Text → Action E ℤ
  to_bigint t = or_raise syntax_error (bigint t)

  -- A `save` on one table: `put` writes the table back.
  abbrev pub saved : {Row Rows : Type 0} → (Rows → Db E) → Option (Row × Rows) → Action E Row
  saved put none db = (err rejected, db)
  saved put (some (r, t)) db = (ok r, put t)

module _ (E : Env) where
  abbrev pub save_user : User → Action E User
  save_user r db = saved (λ t. record db { users = t }) (E.users.save r db.users) db

  abbrev pub save_asset : Asset → Action E Asset
  save_asset r db = saved (λ t. record db { assets = t }) (E.assets.save r db.assets) db

  abbrev pub save_supply : SupplyPosition → Action E SupplyPosition
  save_supply r db = saved (λ t. record db { supplies = t }) (E.supplies.save r db.supplies) db

  abbrev pub save_borrow : BorrowPosition → Action E BorrowPosition
  save_borrow r db = saved (λ t. record db { borrows = t }) (E.borrows.save r db.borrows) db

  abbrev pub save_collateral : CollateralPosition → Action E CollateralPosition
  save_collateral r db =
      saved (λ t. record db { collaterals = t }) (E.collaterals.save r db.collaterals) db

  abbrev pub save_liquidation : LiquidationEvent → Action E LiquidationEvent
  save_liquidation r db =
      saved (λ t. record db { liquidations = t }) (E.liquidations.save r db.liquidations) db

  abbrev pub save_snapshot : MarketSnapshot → Action E MarketSnapshot
  save_snapshot r db = saved (λ t. record db { snapshots = t }) (E.snapshots.save r db.snapshots) db

  abbrev pub save_feed : PriceFeed → Action E PriceFeed
  save_feed r db = saved (λ t. record db { feeds = t }) (E.feeds.save r db.feeds) db

  abbrev pub save_proposal : Proposal → Action E Proposal
  save_proposal r db = saved (λ t. record db { proposals = t }) (E.proposals.save r db.proposals) db

  -- `proposalRepo.update(id, …)`
  abbrev pub update_proposal : Text → (Proposal → Proposal) → Action E (Unit {0})
  update_proposal id change db =
      elim (E.proposals.update (λ p. text_eq p.id id) change db.proposals) [
        | none ↦ (err rejected, db)
        | some t ↦ (ok tt, record db { proposals = t })
      ]

  abbrev pub proposal_by_id : Text → Db E → Option Proposal
  proposal_by_id i db = E.proposals.find_one (λ p. text_eq p.id i) db.proposals

  abbrev pub save_vote : Vote → Action E Vote
  save_vote r db = saved (λ t. record db { votes = t }) (E.votes.save r db.votes) db

  -- `findOne` on a position by its two keys, and on a user or an asset by a column.
  abbrev pub supply_of : Text → Text → Db E → Option SupplyPosition
  supply_of u a db =
      E.supplies.find_one (λ p. text_eq p.user_id u && text_eq p.asset_id a) db.supplies

  abbrev pub borrow_of : Text → Text → Db E → Option BorrowPosition
  borrow_of u a db =
      E.borrows.find_one (λ p. text_eq p.user_id u && text_eq p.asset_id a) db.borrows

  abbrev pub collateral_of : Text → Text → Db E → Option CollateralPosition
  collateral_of u a db =
      E.collaterals.find_one (λ p. text_eq p.user_id u && text_eq p.asset_id a) db.collaterals

  abbrev pub user_by_key : Text → Db E → Option User
  user_by_key k db = E.users.find_one (λ u. text_eq u.public_key k) db.users

  abbrev pub user_by_id : Text → Db E → Option User
  user_by_id i db = E.users.find_one (λ u. text_eq u.id i) db.users

  abbrev pub active_asset : Text → Db E → Option Asset
  active_asset c db = E.assets.find_one (λ a. text_eq a.code c && a.is_active) db.assets

  -- `relations: ['asset']`: each row with its asset as it is now. A foreign key rules out a row
  -- whose asset is missing.
  abbrev pub asset_by_id : Text → Db E → Option Asset
  asset_by_id i db = E.assets.find_one (λ a. text_eq a.id i) db.assets

  abbrev pub with_asset : {Row : Type 0} → (Row → Text) → List Row → Db E → List (Row × Asset)
  with_asset asset_id [] db = []
  with_asset asset_id (r ∷ rs) db = elim (asset_by_id (asset_id r) db) [
    | none ↦ with_asset asset_id rs db
    | some a ↦ (r, a) ∷ with_asset asset_id rs db
  ]

  abbrev pub borrows_of : Text → Db E → List (BorrowPosition × Asset)
  borrows_of u db =
      with_asset (λ p. p.asset_id) (E.borrows.find (λ p. text_eq p.user_id u) db.borrows) db

  abbrev pub collaterals_of : Text → Db E → List (CollateralPosition × Asset)
  collaterals_of u db =
      with_asset (λ p. p.asset_id) (E.collaterals.find (λ p. text_eq p.user_id u) db.collaterals) db

  abbrev pub supplies_of : Text → Db E → List (SupplyPosition × Asset)
  supplies_of u db =
      with_asset (λ p. p.asset_id) (E.supplies.find (λ p. text_eq p.user_id u) db.supplies) db

-- A `save` that returned, taken apart.
pub saved_ok :
    {E : Env} {Row Rows : Type 0} (put : Rows → Db E) (o : Option (Row × Rows)) (db : Db E)
    {r : Row} {db' : Db E}
    → saved put o db ≡ (ok r, db')
    → (t : Rows) × (o ≡ some (r, t)) × (db' ≡ put t)
saved_ok put none db h = cc
saved_ok put (some (q, t)) db h = (t, ground arith, ground arith)

bind_parts :
    {E : Env} {A B : Type 0} (o : Result A × Db E) (f : A → Action E B) {b : B} {db' : Db E}
    → (elim o.0 [ ok a ↦ f a o.1 | err e ↦ (err e, o.1) ]) ≡ (ok b, db')
    → (a : A) × (db₁ : Db E) × (o ≡ (ok a, db₁)) × (f a db₁ ≡ (ok b, db'))
bind_parts (ok a, db₁) f h = (a, db₁, refl, h)
bind_parts (err e, db₁) f h = cc

-- A chain that returned, taken apart.
pub bind_ok :
    {E : Env} {A B : Type 0} (m : Action E A) (f : A → Action E B) (db : Db E) {b : B} {db' : Db E}
    → (m >>= f) db ≡ (ok b, db')
    → (a : A) × (db₁ : Db E) × (m db ≡ (ok a, db₁)) × (f a db₁ ≡ (ok b, db'))
bind_ok m f db h = bind_parts (m db) f h

bind_after :
    {E : Env} {A B : Type 0} (o : Result A × Db E) (f : A → Action E B) {a : A} {db₁ : Db E}
    → o ≡ (ok a, db₁)
    → (elim o.0 [ ok b ↦ f b o.1 | err e ↦ (err e, o.1) ]) ≡ f a db₁
bind_after (ok b, db) f h = ground arith
bind_after (err e, db) f h = cc

-- What a chain does, if its first step returns.
pub bind_step :
    {E : Env} {A B : Type 0} (m : Action E A) (f : A → Action E B) (db : Db E) {a : A} {db₁ : Db E}
    → m db ≡ (ok a, db₁)
    → (m >>= f) db ≡ f a db₁
bind_step m f db h = bind_after (m db) f h

stop_after :
    {E : Env} {A B : Type 0} (o : Result A × Db E) (f : A → Action E B) {e : Error} {db₁ : Db E}
    → o ≡ (err e, db₁)
    → (elim o.0 [ ok b ↦ f b o.1 | err e ↦ (err e, o.1) ]) ≡ (err e, db₁)
stop_after (ok b, db) f h = cc
stop_after (err e, db) f h = ground arith

-- A chain stops at a step that throws.
pub bind_stop :
    {E : Env} {A B : Type 0} (m : Action E A) (f : A → Action E B) (db : Db E) {e : Error}
    {db₁ : Db E}
    → m db ≡ (err e, db₁)
    → (m >>= f) db ≡ (err e, db₁)
bind_stop m f db h = stop_after (m db) f h

pure_after :
    {E : Env} {A B : Type 0} (o : Result A × Db E) (f : A → B)
    → (elim o.0 as (λ _. Result B × Db E) [ ok a ↦ (ok (f a), o.1) | err e ↦ (err e, o.1) ]).1 ≡ o.1
pure_after (ok a, db) f = refl
pure_after (err e, db) f = refl

-- What is returned after a step leaves the database that the step leaves.
pub bind_pure-db :
    {E : Env} {A B : Type 0} (m : Action E A) (f : A → B) (db : Db E)
    → ((m >>= λ a. pure (f a)) db).1 ≡ (m db).1
bind_pure-db m f db = pure_after (m db) f
