-- ===== src/Borrowing/Guard.antt =====
-- What the health check of `borrow` looks at, and how `getHealth` reads a price.
use soro_lend.Prelude.{
  ℕ, suc, ◌-◌, ◌≤◌, ◌<◌, ◌≡◌, ◌≢◌, refl, ap, ◌∙◌, true, false, Option, some, [], ◌∷◌, ◌++◌, arith,
  length, length-append, ◌==◌,
}
use mathlib.Core.List.{append-nil, append_assoc}
use soro_lend.Prelude.Int.{ℤ}
use soro_lend.Text.{Text, codes, remove_first, pad_end}
use soro_lend.Text.Decimal.{bigint}
use soro_lend.Runtime.{Error, ok, err, bad_request}
use soro_lend.Schema.{User, Asset, BorrowPosition}
use soro_lend.Store.{Env, Db, user_by_key, active_asset, collaterals_of}
use soro_lend.Valuation.{collateral_value}
use soro_lend.Borrowing.{scaled_price, validate_health_for_borrow, borrow}

abbrev pub too_low : Error
too_low = bad_request (codes "Borrow would put health factor below minimum threshold")

module _ (E : Env) (key : Text) (db : Db E) {u : User} (user : user_by_key E key db ≡ some u) where
  -- For a user who exists: once one borrow returns, no borrow by that user from the same database
  -- is refused for the health factor, whatever its asset and amount.
  pub borrow_ignores_amount :
      (code amount : Text) {p : BorrowPosition} {db' : Db E}
      → borrow E key code amount db ≡ (ok p, db')
      → (code' amount' : Text) → (borrow E key code' amount' db).0 ≢ err too_low
  unfolding borrow validate_health_for_borrow
  borrow_ignores_amount code amount h code' amount' = ground arith

  -- For an active asset and a user who exists: if the user's collateral is worth 0, a borrow is
  -- refused for the health factor and changes nothing.
  pub borrow_needs_collateral :
      (code amount : Text) {a : Asset}
      → active_asset E code db ≡ some a
      → E.num.eq (collateral_value E.num (collaterals_of E u.id db)) (E.num.literal 0 0) ≡ true
      → borrow E key code amount db ≡ (err too_low, db)
  unfolding borrow validate_health_for_borrow
  borrow_needs_collateral code amount asset worthless = ground arith

-- No code unit of the text is a point.
abbrev pub NoPoint : Text → Type 0
NoPoint [] = Unit {0}
NoPoint (c ∷ s) = ((c == b'.') ≡ false) × NoPoint s

remove_point : (s t : Text) → NoPoint s → remove_first b'.' (s ++ b'.' ∷ t) ≡ s ++ t
remove_point [] t h = refl
remove_point (c ∷ s) t h = rw (h.0, remove_point s t h.1)

remove_none : (s : Text) → NoPoint s → remove_first b'.' s ≡ s
remove_none [] h = refl
remove_none (c ∷ s) h = rw (h.0, remove_none s h.1)

NoPoint-snoc : (s : Text) → NoPoint s → NoPoint (s ++ b'0' ∷ [])
NoPoint-snoc [] h = (refl, tt)
NoPoint-snoc (c ∷ s) h = (h.0, NoPoint-snoc s h.1)

pad_end_long : (n c : ℕ) (s : Text) → n ≤ length s → pad_end n c s ≡ s
pad_end_long n c s h = let none_left : n - length s ≡ 0 = omega arith in rw (none_left, append-nil)

pad_end_snoc : (n c : ℕ) (s : Text) → length s < n → pad_end n c (s ++ c ∷ []) ≡ pad_end n c s
pad_end_snoc n c s h =
    let one : n - length s ≡ suc (n - length (s ++ c ∷ [])) =
      omega (arith, length-append s (c ∷ [])) in
    rw (one, append_assoc)

scaled : Text → Option ℤ
scaled s = bigint (pad_end 18 b'0' (remove_first b'.' s))

scaled_price_lem : (s : Text) → s ≢ [] → scaled_price (some s) ≡ scaled s
unfolding scaled_price scaled
scaled_price_lem [] h = absurd (h refl)
scaled_price_lem (c ∷ s) h = refl

append-cons-ne-nil : (s t : Text) (c : ℕ) → s ++ c ∷ t ≢ []
append-cons-ne-nil [] t c h = cc
append-cons-ne-nil (d ∷ s) t c h = cc

-- A price text of digits without a point, a point and 18 more characters, as the column gives it
-- back, is read as the integer of its digits without the point.
pub scaled_price-column :
    (whole fraction : Text)
    → NoPoint whole
    → length fraction ≡ 18
    → scaled_price (some (whole ++ b'.' ∷ fraction)) ≡ bigint (whole ++ fraction)
unfolding scaled
scaled_price-column whole fraction h e =
    let long : 18 ≤ length (whole ++ fraction) = omega (arith, length-append whole fraction) in
    scaled_price_lem (whole ++ b'.' ∷ fraction) (append-cons-ne-nil whole fraction b'.')
    ∙ ap bigint (
        ap (pad_end 18 b'0') (remove_point whole fraction h)
        ∙ pad_end_long 18 b'0' (whole ++ fraction) long)

-- A price text that is not empty, has no point and fewer than 18 characters is read like the text
-- with a 0 behind it, which is ten times that price.
pub scaled_price_tenfold :
    (c : ℕ) (s : Text)
    → NoPoint (c ∷ s)
    → length (c ∷ s) < 18
    → scaled_price (some ((c ∷ s) ++ b'0' ∷ [])) ≡ scaled_price (some (c ∷ s))
unfolding scaled_price
scaled_price_tenfold c s h lt =
    rw (remove_none (c ∷ s ++ b'0' ∷ []) (NoPoint-snoc (c ∷ s) h), remove_none (c ∷ s) h)
      (ap bigint (pad_end_snoc 18 b'0' (c ∷ s) lt))
