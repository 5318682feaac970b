-- ===== src/Frontend/Forms.antt =====
-- The forms of the client (frontend/src/app/features: lending, borrowing, collateral and governance),
-- and the actions that their components dispatch.
pub mod Amounts
pub mod Submissions
use soro_lend.Prelude.{
  ℕ, ◌≡◌, Bool, true, false, ◌&&◌, ◌||◌, not, Option, none, some, [], ◌∷◌, leb, ◌==◌, if◌then◌else◌,
}
use soro_lend.Text.{Text, codes, is_truthy, truthy}
use soro_lend.Runtime.{Number}
use soro_lend.Frontend.Actions.{
  Kind, supply, withdraw, borrow, repay, deposit_collateral, withdraw_collateral, Action,
  Transaction, submit_transaction, cast_vote, load_proposals, load_voting_power,
}

-- `/^[0-9]+(\.[0-9]+)?$/`
abbrev pub is_digit : ℕ → Bool
is_digit c = leb b'0' c && leb c b'9'

abbrev pub more_digits : Text → Bool
more_digits [] = true
more_digits (c ∷ s) = is_digit c && more_digits s

abbrev pub fraction : Text → Bool
fraction [] = false
fraction (c ∷ s) = is_digit c && more_digits s

abbrev pub after_digit : Text → Bool
after_digit [] = true
after_digit (c ∷ s) = if c == b'.' then fraction s else is_digit c && after_digit s

unfoldable pub amount_pattern : Text → Bool
amount_pattern [] = false
amount_pattern (c ∷ s) = is_digit c && after_digit s

pub record Form : Type 0 where
  pub asset_code : Text
  pub amount : Text

-- `Validators.required` on both fields, and the pattern on the amount.
abbrev pub is_invalid : Form → Bool
is_invalid f = not (is_truthy f.asset_code && is_truthy f.amount && amount_pattern f.amount)

abbrev pub lending_form : Form
lending_form = record { asset_code = codes "XLM"; amount = [] }

abbrev pub borrowing_form : Form
borrowing_form = record { asset_code = codes "USDC"; amount = [] }

abbrev pub collateral_form : Form
collateral_form = record { asset_code = codes "XLM"; amount = [] }

module _ {N : Number} where
  abbrev pub submitted : Kind → Option Text → Form → Option (Action N)
  submitted kind none f = none
  submitted kind (some address) f =
      if is_invalid f
      then none
      else some (
          submit_transaction (record {
            kind = kind;
            address = address;
            asset_code = f.asset_code;
            amount = f.amount;
          }))

  -- `submit` of the components for lending, borrowing and collateral; none where it returns early.
  unfoldable pub submit : Kind → Option Text → Form → Option (Action N)
  unfolding amount_pattern
  submit kind current_address f = submitted kind (truthy current_address) f
