-- ===== src/System/Proposals/Ballots.antt =====
-- `createProposal` and `castVote` on all proposals.
use soro_lend.Prelude.{
  ℕ, ◌+◌, ◌≡◌, refl, inl, inr, Bool, true, false, not, Option, none, [], Option-cases,
}
use soro_lend.Text.{Text, is_truthy, truthy, codes}
use soro_lend.Runtime.{bad_request}
use soro_lend.Schema.{Proposal, pending, active, Vote, User}
use soro_lend.Store.{Env, Db, Action, ◌>>=◌, ◌>>◌, pure, save_proposal, save_vote, gets, raise_if}
use soro_lend.Accounts.{find_or_create_user, find_or_create_user-cases}
use soro_lend.Governance.{
  max_id, get_voting_power, update_tally, get_proposal, cast_vote, create_proposal, status_eq,
  Ballot, NewProposal, vote_of, voted,
}
use soro_lend.Governance.History.{StatusLaws, Advances, same-Advances, create-Advances}
use soro_lend.System.Proposals.{
  Advancing, update_tally-KeepsStates, states_advance, unmoved, bind-Advancing, gets-Advancing,
  raise_if-Advancing, get_proposal-Advancing,
}

module _ (E : Env) {read_back : Proposal → Proposal} (laws : StatusLaws E.proposals read_back) where
  find_or_create_user-Advancing : (key : Text) → Advancing E (find_or_create_user E key)
  find_or_create_user-Advancing key db = elim (find_or_create_user-cases E key db) [
    | inl refused ↦ rw refused (same-Advances E.proposals db.proposals db.proposals refl)
    | inr (u, t, there) ↦ rw there (same-Advances E.proposals db.proposals db.proposals refl)
  ]

  save_vote-Advancing : (v : Vote) → Advancing E (save_vote E v)
  save_vote-Advancing v db = elim (Option-cases (E.votes.save v db.votes)) [
    | inl refused ↦ rw refused (same-Advances E.proposals db.proposals db.proposals refl)
    | inr ((r, t), written) ↦ rw written (same-Advances E.proposals db.proposals db.proposals refl)
  ]

  -- A row without an id is created.
  created-Advancing : (r : Proposal) → is_truthy r.id ≡ false → Advancing E (save_proposal E r)
  created-Advancing r new db = elim (Option-cases (E.proposals.save r db.proposals)) [
    | inl refused ↦ rw refused (same-Advances E.proposals db.proposals db.proposals refl)
    | inr ((r', t), written) ↦
        rw written (create-Advances E.proposals laws r db.proposals written new)
  ]

  abbrev drafted : NewProposal → ℕ → Proposal
  drafted params top = record {
    id = [];
    proposal_id = top + 1;
    title = params.title;
    description = params.description;
    proposer = params.proposer;
    status = pending;
    for_votes = codes "0";
    against_votes = codes "0";
    quorum = params.quorum;
    voting_power_snapshot = codes "0";
    targets = params.targets;
    values = params.values;
    signatures = params.signatures;
    calldatas = params.calldatas;
    start_block = none;
    end_block = none;
    executed_at = none;
  }

  abbrev top_id : Db E → ℕ
  top_id db = max_id (E.proposals.find (λ _. true) db.proposals)

  pub create_proposal-Advances :
      (params : NewProposal) (db : Db E)
      → Advances E.proposals db.proposals (create_proposal E params db).1.proposals
  unfolding create_proposal
  create_proposal-Advances params =
      let add : ℕ → Action E Proposal = λ top. save_proposal E (drafted params top) in
      bind-Advancing E (find_or_create_user E params.proposer) (λ _. gets top_id >>= add)
        (find_or_create_user-Advancing params.proposer)
        (λ _.
          bind-Advancing E (gets top_id) add (gets-Advancing E top_id)
            (λ top. created-Advancing (drafted params top) refl))

  -- What `castVote` does once the voter is known not to have voted, and has a voting power.
  abbrev filled : Ballot → Proposal → User → Text → Vote
  filled b p voter power = record {
    id = [];
    proposal_id = p.id;
    voter_id = voter.id;
    vote = b.vote;
    voting_power = power;
    reason = truthy b.reason;
  }

  abbrev counted : Proposal → Vote → Action E Vote
  counted p vote = do update_tally E p.id; pure vote

  abbrev booked : Ballot → Proposal → User → Action E Vote
  booked b p voter = do
    power ← gets (get_voting_power E b.voter)
    vote ← save_vote E (filled b p voter power)
    counted p vote

  abbrev ask_once : Ballot → Proposal → User → Action E Vote
  ask_once b p voter = do
    existing ← gets (vote_of E p.id voter.id)
    raise_if (voted E existing)
        (bad_request (codes "Voter has already cast a vote on this proposal"))
    booked b p voter

  counted-Advancing : (p : Proposal) (vote : Vote) → Advancing E (counted p vote)
  counted-Advancing p vote =
      bind-Advancing E (update_tally E p.id) (λ _. pure vote)
        (λ db.
          states_advance E db (update_tally E p.id db).1 (update_tally-KeepsStates E laws p.id db))
        (λ _ db. unmoved E db db refl)

  booked-Advancing : (b : Ballot) (p : Proposal) (voter : User) → Advancing E (booked b p voter)
  booked-Advancing b p voter =
      let vote_with : Text → Action E Vote =
        λ power. save_vote E (filled b p voter power) >>= counted p in
      bind-Advancing E (gets (get_voting_power E b.voter)) vote_with
        (gets-Advancing E (get_voting_power E b.voter))
        (λ power.
          bind-Advancing E (save_vote E (filled b p voter power)) (counted p)
            (save_vote-Advancing (filled b p voter power)) (counted-Advancing p))

  ask_once-Advancing : (b : Ballot) (p : Proposal) (voter : User) → Advancing E (ask_once b p voter)
  ask_once-Advancing b p voter =
      let twice = bad_request (codes "Voter has already cast a vote on this proposal") in
      let check : Option Vote → Action E Vote =
        λ existing. raise_if (voted E existing) twice >> booked b p voter in
      bind-Advancing E (gets (vote_of E p.id voter.id)) check
        (gets-Advancing E (vote_of E p.id voter.id))
        (λ existing.
          bind-Advancing E (raise_if (voted E existing) twice) (λ _. booked b p voter)
            (raise_if-Advancing E (voted E existing) twice) (λ _. booked-Advancing b p voter))

  pub cast_vote-Advances :
      (b : Ballot) (db : Db E) → Advances E.proposals db.proposals (cast_vote E b db).1.proposals
  unfolding cast_vote
  cast_vote-Advances b =
      let inactive = bad_request (codes "Voting is not active for this proposal") in
      let closed : Proposal → Bool = λ p. not (status_eq p.status active) in
      let join : Proposal → Action E Vote = λ p. find_or_create_user E b.voter >>= ask_once b p in
      bind-Advancing E (get_proposal E b.proposal_id) (λ p. raise_if (closed p) inactive >> join p)
        (get_proposal-Advancing E b.proposal_id)
        (λ p.
          bind-Advancing E (raise_if (closed p) inactive) (λ _. join p)
            (raise_if-Advancing E (closed p) inactive)
            (λ _.
              bind-Advancing E (find_or_create_user E b.voter) (ask_once b p)
                (find_or_create_user-Advancing b.voter) (ask_once-Advancing b p)))
