-- ===== src/Frontend/Forms/Submissions.antt =====
-- What a form sends, and what the server makes of it.
use soro_lend.Prelude.{◌≡◌, refl, true, false, Option, none, some, [], ◌∷◌, arith}
use soro_lend.Text.{Text, truthy, is_truthy}
use soro_lend.Text.Decimal.{bigint}
use soro_lend.Text.Decimal.Points.{has_point, is_read}
use soro_lend.Runtime.{Number, err, syntax_error}
use soro_lend.Schema.{User, Asset, SupplyPosition}
use soro_lend.Store.{Env, Db, active_asset, user_by_key, supply_of}
use soro_lend.Lending
use soro_lend.Frontend.Actions.{Kind, Transaction, submit_transaction}
use soro_lend.Frontend.Reducers.{Storage}
use soro_lend.Frontend.Selectors.{select_wallet_address}
use soro_lend.Frontend.Session.{Session, dispatch}
use soro_lend.Frontend.Forms.{Form, submit, submitted, amount_pattern}
use soro_lend.Frontend.Forms.Amounts.{amount_pattern-bigint}

module _ {N : Number} where
  submitted_parts :
      (kind : Kind) (address : Option Text) (f : Form) {t : Transaction}
      → submitted {N = N} kind (truthy address) f ≡ some (submit_transaction t)
      → (address ≡ some t.address)
        × (t.kind ≡ kind)
        × (is_truthy t.asset_code ≡ true)
        × (amount_pattern t.amount ≡ true)
  submitted_parts kind none f h = cc
  submitted_parts kind (some []) f h = cc
  submitted_parts kind (some (c ∷ a)) f h = ground arith

  submit_parts :
      (kind : Kind) (address : Option Text) (f : Form) {t : Transaction}
      → submit {N = N} kind address f ≡ some (submit_transaction t)
      → (address ≡ some t.address)
        × (t.kind ≡ kind)
        × (is_truthy t.asset_code ≡ true)
        × (amount_pattern t.amount ≡ true)
  unfolding submit
  submit_parts kind address f h = submitted_parts kind address f h

  -- A transaction that a form submits is of the form's kind and from the wallet's address, and its
  -- amount matches the pattern; once it is dispatched it is in flight and its spinner is shown.
  pub submit-dispatch :
      (page : Storage) (s : Session N) (kind : Kind) (f : Form) {t : Transaction}
      → submit {N = N} kind (select_wallet_address s.state) f ≡ some (submit_transaction t)
      → let s' = dispatch page (submit_transaction t) s in
        (t.kind ≡ kind)
        × (s.state.auth.address ≡ some t.address)
        × (amount_pattern t.amount ≡ true)
        × (s'.requests.transaction ≡ some t)
        × (s'.state.portfolio.transaction_pending ≡ true)
  unfolding dispatch
  submit-dispatch page s kind f h =
      let (a, k, _, m) = submit_parts kind s.state.auth.address f h in (k, a, m, refl, refl)

-- Any text that is not read makes a supply to a position that exists throw, and a withdrawal.
unread :
    (E : Env) (key code amount : Text) (db : Db E) {a : Asset} {u : User} {p : SupplyPosition}
    → is_read (bigint amount) ≡ false
    → active_asset E code db ≡ some a
    → user_by_key E key db ≡ some u
    → supply_of E u.id a.id db ≡ some p
    → (Lending.supply E key code amount db ≡ (err syntax_error, db))
      × (Lending.withdraw E key code amount db ≡ (err syntax_error, db))
unfolding Lending.supply Lending.withdraw
unread E key code amount db h a u p = ground arith

-- A form accepts an amount with a decimal point. Where the user, the asset and the position exist, the
-- server answers it with a SyntaxError, as a supply and as a withdrawal, and writes nothing.
pub submit_decimal :
    {N : Number} (kind : Kind) (address : Option Text) (f : Form) {t : Transaction} (E : Env)
    (db : Db E) {a : Asset} {u : User} {p : SupplyPosition}
    → submit {N = N} kind address f ≡ some (submit_transaction t)
    → has_point t.amount ≡ true
    → active_asset E t.asset_code db ≡ some a
    → user_by_key E t.address db ≡ some u
    → supply_of E u.id a.id db ≡ some p
    → (Lending.supply E t.address t.asset_code t.amount db ≡ (err syntax_error, db))
      × (Lending.withdraw E t.address t.asset_code t.amount db ≡ (err syntax_error, db))
submit_decimal kind address f {t} E db h point asset user position =
    let m = (submit_parts kind address f h).3 in
    unread E t.address t.asset_code t.amount db (ground (arith, amount_pattern-bigint t.amount m))
      asset user position
