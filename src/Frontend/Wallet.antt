-- ===== src/Frontend/Wallet.antt =====
-- WalletService and StellarService (frontend/src/app/core/services). The wallet's extension is a
-- parameter: what it answers when it is there, a function that may be missing being `none`.
use soro_lend.Prelude.{Bool, not, Option, none, some, List, ◌++◌, if◌then◌else◌}
use soro_lend.Text.{Text, codes}
use soro_lend.Runtime.{plain, Result, ok, err}

pub record FreighterApi : Type 0 where
  pub is_connected : Result Bool
  pub get_public_key : Result Text
  pub sign_message : Option (Text → Result Text)
  pub sign_transaction : Option (Text → Result Text)

infixl 5 ◌>>=◌
abbrev pub ◌>>=◌ : {A B : Type 0} → Result A → (A → Result B) → Result B
ok a >>= f = f a
err e >>= f = err e

-- `window.freighterApi`
unfoldable pub get_freighter : Option FreighterApi → Result FreighterApi
get_freighter none = err (plain (codes "Install Freighter to connect a Stellar wallet"))
get_freighter (some api) = ok api

unfoldable pub connect : Option FreighterApi → Result Text
unfolding get_freighter
connect window = do
  api ← get_freighter window
  connected ← api.is_connected
  if not connected
      then err (plain (codes "Freighter wallet is not connected"))
      else api.get_public_key

abbrev pub called : Text → Option (Text → Result Text) → Text → Result Text
called missing none t = err (plain missing)
called missing (some f) t = f t

unfoldable pub sign_message : Option FreighterApi → Text → Result Text
unfolding get_freighter
sign_message window message = do
  api ← get_freighter window
  called (codes "Freighter signMessage is unavailable") api.sign_message message

unfoldable pub sign_transaction : Option FreighterApi → Text → Result Text
unfolding get_freighter
sign_transaction window xdr = do
  api ← get_freighter window
  called (codes "Freighter signTransaction is unavailable") api.sign_transaction xdr

-- StellarService. `toUpperCase` and the printed time are parameters; the arguments of the method come
-- back as they are.
pub record Invocation (Argument : Type 0) : Type 0 where
  pub xdr : Text
  pub method : Text
  pub args : List Argument

pub record Simulation : Type 0 where
  pub fee : Text
  pub result : Text

unfoldable pub invoke_contract :
    {Argument : Type 0} → (Text → Text) → Text → Text → List Argument → Invocation Argument
invoke_contract to_upper_case now method args = record {
  method = method;
  args = args;
  xdr = codes "STUB_" ++ (to_upper_case method ++ (codes "_" ++ now));
}

unfoldable pub simulate_transaction : Text → Simulation
simulate_transaction xdr = record { fee = codes "100"; result = codes "SIMULATED_" ++ xdr }
