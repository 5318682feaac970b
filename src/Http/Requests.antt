-- ===== src/Http/Requests.antt =====
-- The bodies of requests: the classes of backend/src, modules/*/dto and auth/dto, with the checks that
-- their decorators ask for.
use soro_lend.Prelude.{List, [], ◌∷◌}
use soro_lend.Text.{Text, codes}

pub data Check : Type 0 where
  is_string is_not_empty is_number_string is_optional is_array is_string_each is_vote_type : Check

-- The fields of a class in their order, with their decorators.
abbrev pub Schema : Type 0
Schema = List (Text × List Check)

abbrev pub a_text : List Check
a_text = is_string ∷ is_not_empty ∷ []

abbrev pub an_amount : List Check
an_amount = is_number_string ∷ is_not_empty ∷ []

abbrev pub texts : List Check
texts = is_optional ∷ is_array ∷ is_string_each ∷ []

abbrev pub challenge_request_dto : Schema
challenge_request_dto = (codes "publicKey", a_text) ∷ []

abbrev pub verify_request_dto : Schema
verify_request_dto = (codes "publicKey", a_text) ∷ (codes "signature", a_text) ∷ []

abbrev pub supply_dto : Schema
supply_dto =
    (codes "publicKey", a_text) ∷ (codes "assetCode", a_text) ∷ (codes "amount", an_amount) ∷ []

abbrev pub withdraw_dto : Schema
withdraw_dto =
    (codes "publicKey", a_text) ∷ (codes "assetCode", a_text) ∷ (codes "amount", an_amount) ∷ []

abbrev pub borrow_dto : Schema
borrow_dto =
    (codes "publicKey", a_text) ∷ (codes "assetCode", a_text) ∷ (codes "amount", an_amount) ∷ []

abbrev pub repay_dto : Schema
repay_dto =
    (codes "publicKey", a_text) ∷ (codes "assetCode", a_text) ∷ (codes "amount", an_amount) ∷ []

abbrev pub deposit_collateral_dto : Schema
deposit_collateral_dto =
    (codes "publicKey", a_text) ∷ (codes "assetCode", a_text) ∷ (codes "amount", an_amount) ∷ []

abbrev pub withdraw_collateral_dto : Schema
withdraw_collateral_dto =
    (codes "publicKey", a_text) ∷ (codes "assetCode", a_text) ∷ (codes "amount", an_amount) ∷ []

abbrev pub create_proposal_dto : Schema
create_proposal_dto =
    (codes "title", a_text)
    ∷ (codes "description", a_text)
    ∷ (codes "proposer", a_text)
    ∷ (codes "quorum", an_amount)
    ∷ (codes "targets", texts)
    ∷ (codes "values", texts)
    ∷ (codes "signatures", texts)
    ∷ (codes "calldatas", texts)
    ∷ []

abbrev pub vote_dto : Schema
vote_dto =
    (codes "proposalId", a_text)
    ∷ (codes "voter", a_text)
    ∷ (codes "vote", is_vote_type ∷ [])
    ∷ (codes "reason", is_optional ∷ is_string ∷ [])
    ∷ []
