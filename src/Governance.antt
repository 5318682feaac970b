-- ===== src/Governance.antt =====
-- GovernanceService (backend/src/modules/governance/governance.service.ts).
pub mod Lifecycle
pub mod Tallies
pub mod Counting
pub mod Votes
pub mod History
use soro_lend.Prelude.{
  ℕ, suc, ◌+◌, ◌*◌, Bool, true, false, ◌&&◌, not, Option, none, some, List, [], ◌∷◌, ◌++◌, ltb,
  if◌then◌else◌,
}
use soro_lend.Prelude.Int.{ℤ, pos, ◌+ℤ◌}
use soro_lend.Text.{Text, codes, text_eq, truthy}
use soro_lend.Text.Decimal.{to_text}
use soro_lend.Runtime.{Error, not_found, bad_request, ok}
use soro_lend.Schema.{
  User, Proposal, ProposalStatus, pending, active, succeeded, defeated, executed, Vote, VoteType,
  for_it, against, abstain,
}
use soro_lend.Store.{
  Env, Db, Action, ◌>>=◌, ◌>>◌, pure, gets, or_raise, raise_if, to_bigint, save_proposal, save_vote,
  update_proposal, proposal_by_id, user_by_key,
}
use soro_lend.Accounts.{find_or_create_user}

pub record NewProposal : Type 0 where
  pub title : Text
  pub description : Text
  pub proposer : Text
  pub quorum : Text
  pub targets : Option (List Text)
  pub values : Option (List Text)
  pub signatures : Option (List Text)
  pub calldatas : Option (List Text)

pub record Ballot : Type 0 where
  pub proposal_id : Text
  pub voter : Text
  pub vote : VoteType
  pub reason : Option Text

-- `status === s`
abbrev pub status_eq : ProposalStatus → ProposalStatus → Bool
status_eq pending pending = true
status_eq active active = true
status_eq succeeded succeeded = true
status_eq defeated defeated = true
status_eq executed executed = true
status_eq _ _ = false

-- `SELECT MAX(p.proposalId)`, with 0 for no rows
pub max_id : List Proposal → ℕ
max_id [] = 0
max_id (p ∷ ps) = let rest = max_id ps in if ltb rest p.proposal_id then p.proposal_id else rest

-- `Math.max(supplyCount * 100, 1).toString()`
unfoldable pub simulated_power : ℕ → Text
simulated_power supply_count =
    to_text (pos (if ltb (supply_count * 100) 1 then 1 else supply_count * 100))

abbrev not_found_proposal : Text → Error
not_found_proposal id = not_found (codes "Proposal not found: " ++ id)

-- The sums of `updateTally`: votes for and against, so far.
abbrev pub Tally : Type 0
Tally = ℤ × ℤ

module _ (E : Env) where
  unfoldable pub create_proposal : NewProposal → Action E Proposal
  unfolding max_id find_or_create_user
  create_proposal params = do
    find_or_create_user E params.proposer
    top ← gets (λ db. max_id (E.proposals.find (λ _. true) db.proposals))
    save_proposal E (record {
      id = [];
      proposal_id = top + 1;
      title = params.title;
      description = params.description;
      proposer = params.proposer;
      status = pending;
      for_votes = codes "0";
      against_votes = codes "0";
      quorum = params.quorum;
      voting_power_snapshot = codes "0";
      targets = params.targets;
      values = params.values;
      signatures = params.signatures;
      calldatas = params.calldatas;
      start_block = none;
      end_block = none;
      executed_at = none;
    })

  -- `findOne({ where: { id } })` and the check for null
  unfoldable pub get_proposal : Text → Action E Proposal
  get_proposal id = do found ← gets (proposal_by_id E id); or_raise (not_found_proposal id) found

  unfoldable pub get_proposals : Db E → List Proposal
  get_proposals db = E.proposals.find_newest (λ _. true) db.proposals

  -- `findOne` loads no relation, so `user.supplyPositions` is undefined and the count is 0.
  unfoldable pub power_of : Option User → Text
  power_of none = codes "0"
  power_of (some user) = simulated_power 0

  unfoldable pub get_voting_power : Text → Db E → Text
  unfolding power_of simulated_power
  get_voting_power address db = power_of (user_by_key E address db)

  -- One round of the loop of `updateTally`.
  unfoldable pub count_vote : Tally → Vote → VoteType → Action E Tally
  count_vote (yea, nay) v for_it = do power ← to_bigint v.voting_power; pure (yea +ℤ power, nay)
  count_vote (yea, nay) v against = do power ← to_bigint v.voting_power; pure (yea, nay +ℤ power)
  count_vote tally v abstain = pure tally

  unfoldable pub count_votes : Tally → List Vote → Action E Tally
  count_votes tally [] = pure tally
  count_votes tally (v ∷ vs) = do next ← count_vote tally v v.vote; count_votes next vs

  unfoldable pub update_tally : Text → Action E (Unit {0})
  unfolding count_votes count_vote
  update_tally proposal_id = do
    votes ← gets (λ db. E.votes.find (λ v. text_eq v.proposal_id proposal_id) db.votes)
    tally ← count_votes (pos 0, pos 0) votes
    update_proposal E proposal_id
        (λ p. record p { for_votes = to_text tally.0; against_votes = to_text tally.1 })

  abbrev pub vote_of : Text → Text → Db E → Option Vote
  vote_of proposal voter db =
      E.votes.find_one (λ v. text_eq v.proposal_id proposal && text_eq v.voter_id voter) db.votes

  abbrev pub voted : Option Vote → Bool
  voted none = false
  voted (some v) = true

  unfoldable pub cast_vote : Ballot → Action E Vote
  unfolding get_proposal find_or_create_user
  cast_vote params = do
    proposal ← get_proposal params.proposal_id
    raise_if (not (status_eq proposal.status active))
        (bad_request (codes "Voting is not active for this proposal"))
    voter ← find_or_create_user E params.voter
    existing ← gets (vote_of proposal.id voter.id)
    raise_if (voted existing) (bad_request (codes "Voter has already cast a vote on this proposal"))
    power ← gets (get_voting_power params.voter)
    vote ← save_vote E (record {
      id = [];
      proposal_id = proposal.id;
      voter_id = voter.id;
      vote = params.vote;
      voting_power = power;
      reason = truthy params.reason;
    })
    update_tally proposal.id
    pure vote

  unfoldable pub activate_proposal : Text → Action E Proposal
  unfolding get_proposal
  activate_proposal id = do
    proposal ← get_proposal id
    raise_if (not (status_eq proposal.status pending))
        (bad_request (codes "Only Pending proposals can be activated"))
    save_proposal E (record proposal { status = active })

  unfoldable pub execute_proposal : ℕ → Text → Action E Proposal
  unfolding get_proposal
  execute_proposal now id = do
    proposal ← get_proposal id
    raise_if (not (status_eq proposal.status succeeded))
        (bad_request (codes "Only Succeeded proposals can be executed"))
    save_proposal E (record proposal { status = executed; executed_at = some now })

  unfoldable pub check_quorum : Proposal → Bool
  check_quorum p =
      E.num.le (E.num.parse_float p.quorum)
        (E.num.add (E.num.parse_float p.for_votes) (E.num.parse_float p.against_votes))

  unfoldable pub verdict : Proposal → ProposalStatus
  unfolding check_quorum
  verdict p =
      if check_quorum p
        && E.num.lt (E.num.parse_float p.against_votes) (E.num.parse_float p.for_votes)
      then succeeded
      else defeated

  unfoldable pub finalize_proposal : Text → Action E Proposal
  unfolding get_proposal
  finalize_proposal id = do
    proposal ← get_proposal id
    raise_if (not (status_eq proposal.status active))
        (bad_request (codes "Only Active proposals can be finalized"))
    update_tally proposal.id
    refreshed ← get_proposal id
    save_proposal E (record refreshed { status = verdict refreshed })
