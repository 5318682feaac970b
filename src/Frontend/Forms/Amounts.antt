-- ===== src/Frontend/Forms/Amounts.antt =====
-- Amounts that the forms let through, as the server reads them.
use soro_lend.Prelude.{◌≡◌, true, not, [], ◌∷◌, arith}
use soro_lend.Text.{Text}
use soro_lend.Text.Decimal.{bigint}
use soro_lend.Text.Decimal.Points.{has_point, is_read, Plain, bigint-Plain}
use soro_lend.Frontend.Forms.{more_digits, fraction, after_digit, amount_pattern}

more_digits-Plain : (s : Text) → more_digits s ≡ true → Plain s
more_digits-Plain [] h = tt
more_digits-Plain (c ∷ s) h = ground (arith, more_digits-Plain s)

fraction-Plain : (s : Text) → fraction s ≡ true → Plain s
fraction-Plain [] h = cc
fraction-Plain (c ∷ s) h = ground (arith, more_digits-Plain s)

after_digit-Plain : (s : Text) → after_digit s ≡ true → Plain s
after_digit-Plain [] h = tt
after_digit-Plain (c ∷ s) h = ground (arith, after_digit-Plain s, fraction-Plain s)

-- An amount that matches the pattern of the forms is read by `BigInt` exactly if it has no decimal
-- point.
pub amount_pattern-bigint :
    (t : Text) → amount_pattern t ≡ true → is_read (bigint t) ≡ not (has_point t)
unfolding amount_pattern
amount_pattern-bigint [] h = cc
amount_pattern-bigint (c ∷ s) h =
    bigint-Plain c s (ground arith) (ground (arith, after_digit-Plain s))
