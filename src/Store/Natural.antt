-- ===== src/Store/Natural.antt =====
-- Tables of positions in which no balance is negative.
use soro_lend.Prelude.{
  ◌≡◌, Option, none, some, arith, Bool, true, false, if◌then◌else◌, ◌&&◌, inl, inr, Bool-cases,
}
use soro_lend.Prelude.Int.{ℤ, pos, negsuc, ◌+ℤ◌, ◌-ℤ◌, ltb_ℤ}
use soro_lend.Text.{Text, text_eq}
use soro_lend.Text.Decimal.{bigint}
use soro_lend.Store.Positions.{Positions, PositionLaws, Fits, Sets, entry, has_key, save-Sets}

abbrev pub is_natural : ℤ → Bool
is_natural (pos n) = true
is_natural (negsuc n) = false

abbrev pub natural_or_none : Option ℤ → Bool
natural_or_none none = true
natural_or_none (some m) = is_natural m

-- No entry is negative.
abbrev pub Natural : {Row : Type 0} (P : Positions Row) → P.table.Rows → Type 0
Natural P t = (u a : Text) → natural_or_none (entry P u a t) ≡ true

module _ {Row : Type 0} (P : Positions Row) {read_back : Row → Row}
    (laws : PositionLaws P read_back) where
  either :
      (b : Bool) (m : ℤ) (o : Option ℤ)
      → is_natural m ≡ true
      → natural_or_none o ≡ true
      → natural_or_none (if b then some m else o) ≡ true
  either true m o h k = h
  either false m o h k = k

  Sets-Natural :
      (u a : Text) (m : ℤ) (t t' : P.table.Rows)
      → Sets P u a m t t'
      → is_natural m ≡ true
      → Natural P t
      → Natural P t'
  Sets-Natural u a m t t' sets m_natural natural v b =
      rw (sets v b) (either (text_eq u v && text_eq a b) m _ m_natural (natural v b))

  -- A write of an amount that is not negative, whether the table takes it or not.
  pub save-Natural :
      (q : Row) (t : P.table.Rows) {m : ℤ}
      → Fits P q t
      → bigint (P.amount q) ≡ some m
      → is_natural m ≡ true
      → Natural P t
      → {r : Row} {t' : P.table.Rows} → P.table.save q t ≡ some (r, t')
      → Natural P t'
  save-Natural q t {m} fits reads m_natural natural {r} {t'} written =
      Sets-Natural (P.user_id q) (P.asset_id q) m t t' (save-Sets P laws q t m fits written reads)
        m_natural natural

  -- So too for a text that `BigInt` need not read, if it stands for no negative number.
  pub save_value-Natural :
      (q : Row) (t : P.table.Rows)
      → Fits P q t
      → natural_or_none (P.value (P.amount q)) ≡ true
      → Natural P t
      → {r : Row} {t' : P.table.Rows} → P.table.save q t ≡ some (r, t')
      → Natural P t'
  save_value-Natural q t fits stands natural {r} {t'} written u a =
      elim (Bool-cases (has_key P.user_id P.asset_id u a q)) [
        | inl here ↦
            rw (laws.found-save q t fits written u a, here, laws.read_amount q t written) stands
        | inr elsewhere ↦ rw (laws.found-save q t fits written u a, elsewhere) (natural u a)
      ]

  -- What `BigInt` reads of a stored amount is not negative.
  pub stored-Natural :
      (u a : Text) (t : P.table.Rows) {p : Row} {m : ℤ}
      → Natural P t
      → P.table.find_one (has_key P.user_id P.asset_id u a) t ≡ some p
      → bigint (P.amount p) ≡ some m
      → is_natural m ≡ true
  stored-Natural u a t {p} natural found read =
      rw (found, laws.value-bigint (P.amount p) read) at (natural u a)

pub is_natural-add :
    (m x : ℤ) → is_natural m ≡ true → is_natural x ≡ true → is_natural (m +ℤ x) ≡ true
unfolding ◌+ℤ◌
is_natural-add m x h k = ground arith

pub is_natural-sub : (m x : ℤ) → ltb_ℤ m x ≡ false → is_natural (m -ℤ x) ≡ true
unfolding ◌-ℤ◌
is_natural-sub m x h = ground arith
