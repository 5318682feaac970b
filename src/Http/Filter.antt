-- ===== src/Http/Filter.antt =====
-- How errors are answered: HttpExceptionFilter and ValidationPipe (backend/src/common/filters and
-- backend/src/common/pipes). The exceptions of NestJS are a parameter.
pub mod Statuses
use soro_lend.Prelude.{
  ℕ, Bool, true, false, not, Option, none, some, List, [], ◌∷◌, ◌++◌, if◌then◌else◌,
}
use soro_lend.Text.{Text, codes, truthy}
use soro_lend.Runtime.{Error, Result, ok, err, bad_request}

-- `getResponse()`: a text, or an object whose `message` is absent, a text or a list of texts.
pub data Body : Type 0 where
  text : Text → Body
  silent : Body
  message : Text → Body
  messages : List Text → Body

-- An HttpException with its status, its own message and its response; another `Error`, with its
-- message; or anything else that was thrown.
pub data Exception : Type 0 where
  http : ℕ → Text → Body → Exception
  native : Text → Exception
  thrown : Exception

pub record Answer : Type 0 where
  pub status_code : ℕ
  pub message : Text
  pub timestamp : Text
  pub path : Text

-- `texts.join('; ')`
abbrev pub join : List Text → Text
join [] = []
join (t ∷ []) = t
join (t ∷ u ∷ us) = t ++ (codes "; " ++ join (u ∷ us))

-- `resp.message || exception.message`; a list counts as true, the empty one too.
abbrev pub or_own : Text → Option Text → Text
or_own own none = own
or_own own (some t) = t

abbrev pub message_of : Text → Body → Text
message_of own (text t) = t
message_of own silent = own
message_of own (message t) = or_own own (truthy (some t))
message_of own (messages ts) = join ts

-- `HttpExceptionFilter.catch`
unfoldable pub catch : Text → Text → Exception → Answer
catch timestamp path (http status own body) = record {
  status_code = status;
  message = message_of own body;
  timestamp = timestamp;
  path = path;
}
catch timestamp path (native own) = record {
  status_code = 500;
  message = own;
  timestamp = timestamp;
  path = path;
}
catch timestamp path thrown = record {
  status_code = 500;
  message = codes "Internal server error";
  timestamp = timestamp;
  path = path;
}

-- The classes that a parameter of a handler is declared with.
pub data Metatype : Type 0 where
  string boolean number array object : Metatype
  request_type : Text → Metatype

-- `ValidationPipe.toValidate`
unfoldable pub to_validate : Metatype → Bool
to_validate (request_type name) = true
to_validate _ = false

-- `errors.map((err) => Object.values(err.constraints || {})).flat()`
abbrev pub flat : List (List Text) → List Text
flat [] = []
flat (ts ∷ rest) = ts ++ flat rest

-- `plainToInstance` and `validate` are parameters; an error is the list of its messages.
module _ {Value : Type 0} (plain_to_instance : Metatype → Value → Value)
    (validate : Value → List (List Text)) where
  abbrev pub judged : Value → List (List Text) → Result Value
  judged v [] = ok v
  judged v (e ∷ es) =
      err (bad_request (or_own (codes "Validation failed") (truthy (some (join (flat (e ∷ es)))))))

  -- `ValidationPipe.transform`
  unfoldable pub transform : Value → Option Metatype → Result Value
  unfolding to_validate
  transform value none = ok value
  transform value (some metatype) =
      if not (to_validate metatype)
      then ok value
      else let v = plain_to_instance metatype value in judged v (validate v)
