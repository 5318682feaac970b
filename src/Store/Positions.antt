-- ===== src/Store/Positions.antt =====
-- What the services rely on in a table of positions, which has one row for a user and an asset (the
-- unique index of the entities), and the ledger of integer balances that such a table stands for.
-- The laws are those of the database, taken as hypotheses.
use soro_lend.Prelude.{
  ◌≡◌, sym, ◌⊎◌, inl, inr, Bool, true, ◌&&◌, Option, none, some, arith, if◌then◌else◌,
}
use soro_lend.Prelude.Int.{ℤ, pos}
use soro_lend.Text.{Text, text_eq, text_eq_sound}
use soro_lend.Text.Decimal.{bigint}
use soro_lend.Store.{Table}

module _ {Row : Type 0} (user_id asset_id : Row → Text) where
  -- The `where` clause on the user and the asset of a position.
  abbrev pub has_key : Text → Text → Row → Bool
  has_key u a r = text_eq (user_id r) u && text_eq (asset_id r) a

-- A table of positions, with its columns.
pub record Positions (Row : Type 0) : Type 1 where
  pub table : Table Row
  pub id : Row → Text
  pub user_id : Row → Text
  pub asset_id : Row → Text
  pub amount : Row → Text
  -- the integer that a text of the amount column stands for, if it stands for one
  pub value : Text → Option ℤ

module _ {Row : Type 0} (P : Positions Row) where
  open P use {table as T, id, user_id, asset_id, amount, value}

  -- A row may be written if its key is free, or is the key of the row that it replaces.
  abbrev pub Fits : Row → T.Rows → Type 0
  Fits r t =
      (u a : Text)
      → has_key user_id asset_id u a r ≡ true
      → (T.find_one (has_key user_id asset_id u a) t ≡ none)
        ⊎ ((q : Row) × (T.find_one (has_key user_id asset_id u a) t ≡ some q) × (id q ≡ id r))

  abbrev pub reading : Option Row → Option ℤ
  reading none = none
  reading (some r) = value (amount r)

  -- The integer that the amount under a key stands for, if there is one.
  abbrev pub entry : Text → Text → T.Rows → Option ℤ
  entry u a t = reading (T.find_one (has_key user_id asset_id u a) t)

  -- One entry is `m`, the others are as they were.
  abbrev pub Sets : Text → Text → ℤ → T.Rows → T.Rows → Type 0
  Sets u a m t t' =
      (v b : Text) → entry v b t' ≡ (if text_eq u v && text_eq a b then some m else entry v b t)

  pub record PositionLaws (read_back : Row → Row) : Type 0 where
    -- a row that is found meets the `where` clause
    pub found-key :
        (u a : Text) (t : T.Rows) {r : Row}
        → T.find_one (has_key user_id asset_id u a) t ≡ some r
        → has_key user_id asset_id u a r ≡ true
    -- a saved row is found under its key, as the columns give it back, the others are untouched
    pub found-save :
        (r : Row) (t : T.Rows) {r' : Row} {t' : T.Rows}
        → Fits r t
        → T.save r t ≡ some (r', t')
        → (u a : Text)
        → T.find_one (has_key user_id asset_id u a) t' ≡ (
            if has_key user_id asset_id u a r
            then some (read_back r')
            else T.find_one (has_key user_id asset_id u a) t)
    -- what `BigInt` reads is what the text stands for
    pub value-bigint : (t : Text) {m : ℤ} → bigint t ≡ some m → value t ≡ some m
    -- an amount is read back as a text of the same number, which need not be the same text
    pub read_amount :
        (r : Row) (t : T.Rows) {r' : Row} {t' : T.Rows}
        → T.save r t ≡ some (r', t')
        → value (amount (read_back r')) ≡ value (amount r)

abbrev pub held : Option ℤ → ℤ
held none = pos 0
held (some m) = m

key_parts : (b c : Bool) → (b && c) ≡ true → (b ≡ true) × (c ≡ true)
key_parts b c h = ground arith

pub key_texts : (s t u v : Text) → (text_eq s u && text_eq t v) ≡ true → (s ≡ u) × (t ≡ v)
key_texts s t u v h =
    let (p, q) = key_parts (text_eq s u) (text_eq t v) h in
    (text_eq_sound s u p, text_eq_sound t v q)

module _ {Row : Type 0} (P : Positions Row) {read_back : Row → Row}
    (laws : PositionLaws P read_back) where
  open P use {table as T, id, user_id, asset_id, amount, value}

  pub found_ids :
      (u a : Text) (t : T.Rows) {p : Row}
      → T.find_one (has_key user_id asset_id u a) t ≡ some p
      → (user_id p ≡ u) × (asset_id p ≡ a)
  found_ids u a t {p} h = key_texts (user_id p) (asset_id p) u a (laws.found-key u a t h)

  pub Fits-absent :
      (q : Row) (t : T.Rows)
      → T.find_one (has_key user_id asset_id (user_id q) (asset_id q)) t ≡ none
      → Fits P q t
  Fits-absent q t h u a k =
      let (e, f) = key_texts (user_id q) (asset_id q) u a k in inl (rw (← e, ← f) h)

  pub Fits-found :
      (u a : Text) (q : Row) (t : T.Rows) {p : Row}
      → T.find_one (has_key user_id asset_id u a) t ≡ some p
      → user_id q ≡ user_id p
      → asset_id q ≡ asset_id p
      → id q ≡ id p
      → Fits P q t
  Fits-found u a q t {p} h same_user same_asset same_id v b k =
      let (e, f) = key_texts (user_id q) (asset_id q) v b k in
      let (e', f') = found_ids u a t h in
      inr (p, rw (← e, ← f, same_user, same_asset, e', f') h, sym same_id)

  -- A write sets the entry under its key.
  pub save-Sets :
      (q : Row) (t : T.Rows) (m : ℤ) {r : Row} {t' : T.Rows}
      → Fits P q t
      → T.save q t ≡ some (r, t')
      → bigint (amount q) ≡ some m
      → Sets P (user_id q) (asset_id q) m t t'
  save-Sets q t m fits e reads v b = ground (
    arith,
    laws.found-save q t fits e v b,
    laws.read_amount q t e,
    laws.value-bigint (amount q) reads,
  )

  -- A row that is found and written back with another amount.
  pub write_found :
      (u a : Text) (q : Row) (t : T.Rows) (m : ℤ) {p r : Row} {t' : T.Rows}
      → T.find_one (has_key user_id asset_id u a) t ≡ some p
      → user_id q ≡ user_id p
      → asset_id q ≡ asset_id p
      → id q ≡ id p
      → bigint (amount q) ≡ some m
      → T.save q t ≡ some (r, t')
      → Sets P u a m t t'
  write_found u a q t m h same_user same_asset same_id reads e =
      let (at_user, at_asset) = found_ids u a t h in
      rw (← at_user, ← at_asset, ← same_user, ← same_asset)
        (save-Sets q t m (Fits-found u a q t h same_user same_asset same_id) e reads)

  -- A new row under a free key.
  pub write_absent :
      (q : Row) (t : T.Rows) (m : ℤ) {r : Row} {t' : T.Rows}
      → T.find_one (has_key user_id asset_id (user_id q) (asset_id q)) t ≡ none
      → bigint (amount q) ≡ some m
      → T.save q t ≡ some (r, t')
      → Sets P (user_id q) (asset_id q) m t t'
  write_absent q t m h reads e = save-Sets q t m (Fits-absent q t h) e reads
