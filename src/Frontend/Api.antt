-- ===== src/Frontend/Api.antt =====
-- ProtocolApiService (frontend/src/app/core/services/protocol-api.service.ts): the call that each
-- method makes.
pub mod Contract
use soro_lend.Prelude.{Bool, ◌++◌, Option, none, some}
use soro_lend.Text.{Text, codes}
use soro_lend.Http.{Json, Fields, with, no_fields, text, boolean}
use soro_lend.Frontend.Actions.{
  Kind, supply, withdraw, borrow, repay, deposit_collateral, withdraw_collateral, Transaction,
  Ballot,
}

pub data Call : Type 0 where
  get : Text → Call
  -- with the object of the body
  post : Text → Fields → Call

-- `environment.apiUrl`; in the methods, `base` is the value that the client was built with.
abbrev pub api_url : Text
api_url = codes "http://localhost:3000"

-- `{ publicKey, assetCode, amount }`
abbrev pub position_body : Text → Text → Text → Fields
position_body public_key asset_code amount =
    with (codes "publicKey") (text public_key)
      (with (codes "assetCode") (text asset_code) (with (codes "amount") (text amount) no_fields))

module _ (base : Text) where
  abbrev pub get_markets : Call
  get_markets = get (base ++ codes "/markets")

  abbrev pub get_supply_positions : Text → Call
  get_supply_positions address = get (base ++ (codes "/positions/" ++ address))

  abbrev pub get_borrow_positions : Text → Call
  get_borrow_positions address = get (base ++ (codes "/borrow/positions/" ++ address))

  abbrev pub get_health : Text → Call
  get_health address = get (base ++ (codes "/health/" ++ address))

  abbrev pub get_collateral_portfolio : Text → Call
  get_collateral_portfolio address = get (base ++ (codes "/collateral/portfolio/" ++ address))

  abbrev pub get_max_borrow : Text → Call
  get_max_borrow address = get (base ++ (codes "/collateral/max-borrow/" ++ address))

  abbrev pub post_supply : Text → Text → Text → Call
  post_supply public_key asset_code amount =
      post (base ++ codes "/supply") (position_body public_key asset_code amount)

  abbrev pub post_withdraw : Text → Text → Text → Call
  post_withdraw public_key asset_code amount =
      post (base ++ codes "/withdraw") (position_body public_key asset_code amount)

  abbrev pub post_borrow : Text → Text → Text → Call
  post_borrow public_key asset_code amount =
      post (base ++ codes "/borrow") (position_body public_key asset_code amount)

  abbrev pub post_repay : Text → Text → Text → Call
  post_repay public_key asset_code amount =
      post (base ++ codes "/repay") (position_body public_key asset_code amount)

  abbrev pub post_deposit_collateral : Text → Text → Text → Call
  post_deposit_collateral public_key asset_code amount =
      post (base ++ codes "/collateral/deposit") (position_body public_key asset_code amount)

  abbrev pub post_withdraw_collateral : Text → Text → Text → Call
  post_withdraw_collateral public_key asset_code amount =
      post (base ++ codes "/collateral/withdraw") (position_body public_key asset_code amount)

  abbrev pub get_proposals : Call
  get_proposals = get (base ++ codes "/proposals")

  abbrev pub post_vote : Text → Text → Bool → Call
  post_vote proposal_id voter support = post (base ++ codes "/vote") (
      with (codes "proposalId") (text proposal_id)
        (with (codes "voter") (text voter) (with (codes "support") (boolean support) no_fields)))

  abbrev pub get_voting_power : Text → Call
  get_voting_power address = get (base ++ (codes "/voting-power/" ++ address))

  abbrev pub get_protocol_stats : Call
  get_protocol_stats = get (base ++ codes "/protocol-stats")

  -- The table of `submitTransaction$`, from the kind of a transaction to its call.
  unfoldable pub transaction_call : Transaction → Call
  transaction_call t = elim t.kind [
    | supply ↦ post_supply t.address t.asset_code t.amount
    | withdraw ↦ post_withdraw t.address t.asset_code t.amount
    | borrow ↦ post_borrow t.address t.asset_code t.amount
    | repay ↦ post_repay t.address t.asset_code t.amount
    | deposit_collateral ↦ post_deposit_collateral t.address t.asset_code t.amount
    | withdraw_collateral ↦ post_withdraw_collateral t.address t.asset_code t.amount
  ]

  -- `castVote$`
  abbrev pub vote_call : Ballot → Call
  vote_call b = post_vote b.proposal_id b.voter b.support
