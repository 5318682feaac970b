-- ===== src/Runtime.antt =====
-- What the backend takes from the language and from NestJS: numbers, and errors as values.
-- A JavaScript number is an IEEE double. Its type and operations are a parameter, `Number`;
-- `Number` lists just the operations that the services call.
use soro_lend.Prelude.{ℕ, Bool}
use soro_lend.Prelude.Int.{ℤ}
use soro_lend.Text.{Text}

pub record Number : Type 1 where
  pub Value : Type 0
  -- the literal that is `m` divided by 10 to the `k`: 1.05 is `literal 105 2`
  pub literal : ℕ → ℕ → Value
  pub parse_float : Text → Value
  -- `Number(z)` for a BigInt
  pub of_ℤ : ℤ → Value
  pub add : Value → Value → Value
  pub sub : Value → Value → Value
  pub mul : Value → Value → Value
  pub div : Value → Value → Value
  -- `Math.min`, `Math.max`, `Math.abs`
  pub min : Value → Value → Value
  pub max : Value → Value → Value
  pub abs : Value → Value
  -- `a < b`, `a <= b`, `a === b`
  pub lt : Value → Value → Bool
  pub le : Value → Value → Bool
  pub eq : Value → Value → Bool
  -- `Number.POSITIVE_INFINITY`, `Number.isFinite`, `Number(text)`
  pub infinity : Value
  pub is_finite : Value → Bool
  pub number : Text → Value
  -- `x.toFixed(d)`, `x.toString()`
  pub to_fixed : ℕ → Value → Text
  pub to_string : Value → Text

-- What a method throws: NestJS's exceptions with their messages, a plain `Error`, the SyntaxError
-- of `BigInt(text)`, or the rejection of a write by the database.
pub data Error : Type 0 where
  not_found bad_request unauthorized plain : Text → Error
  syntax_error rejected : Error

pub data Result {ℓ} (A : Type ℓ) : Type ℓ where
  ok : A → Result A
  err : Error → Result A
