-- ===== src/Governance/Votes.antt =====
-- Who votes, how often, and with what power.
use soro_lend.Prelude.{
  true, ◌≡◌, refl, sym, ap, ◌∙◌, ◌&&◌, none, some, arith, Option-cases, inl, inr, [],
}
use soro_lend.Text.{Text, codes, text_eq, truthy}
use mathlib.Core.Path.{subst}
use mathlib.Core.List.{Memᴰ}
use soro_lend.Text.Decimal.{bigint, to_text}
use soro_lend.Runtime.{ok, err, bad_request, syntax_error}
use soro_lend.Schema.{User, Proposal, Vote, active}
use soro_lend.Store.{
  Env, Db, Table, proposal_by_id, user_by_key, save_vote, saved_ok, bind_ok, bind_step, bind_stop,
  ◌>>=◌, ◌>>◌, pure,
}
use soro_lend.Governance.Tallies.{ProposalLaws}
use soro_lend.Governance.Counting.{update_tally_inv, counts, update_tally_unread}
use soro_lend.Governance.{Tally, Ballot, get_voting_power, vote_of, cast_vote, update_tally}

-- Voting power is `1` for a user and `0` for an address that is none: what a user supplied does not
-- count.
pub voting_power_is_flat :
    (E : Env) (address : Text) (db : Db E)
    → get_voting_power E address db
      ≡ elim (user_by_key E address db) [ none ↦ codes "0" | some u ↦ codes "1" ]
unfolding get_voting_power to_text
voting_power_is_flat E address db = elim (Option-cases (user_by_key E address db)) [
  | inl absent ↦ rw absent
  | inr (u, found) ↦ rw found
]

-- A voter whose vote on the proposal is stored is refused, whatever the ballot says.
pub cast_vote_again :
    (E : Env) (b : Ballot) (db : Db E) {p : Proposal} {u : User} {v : Vote}
    → proposal_by_id E b.proposal_id db ≡ some p
    → p.status ≡ active
    → user_by_key E b.voter db ≡ some u
    → vote_of E p.id u.id db ≡ some v
    → cast_vote E b db
      ≡ (err (bad_request (codes "Voter has already cast a vote on this proposal")), db)
unfolding cast_vote
cast_vote_again E b db found ready voter before = ground arith

-- A saved vote is found under its proposal and its voter (the unique index of the entity).
abbrev pub FindsVotes : Table Vote → Type 0
FindsVotes T =
    (r r' : Vote) (t t' : T.Rows)
    → T.save r t ≡ some (r', t')
    → (w : Vote) × (T.find_one
          (λ v. text_eq v.proposal_id r.proposal_id && text_eq v.voter_id r.voter_id) t'
        ≡ some w)

abbrev tally_change : Tally → Proposal → Proposal
tally_change tally p = record p { for_votes = to_text tally.0; against_votes = to_text tally.1 }

-- The `create` of `castVote`.
abbrev pub ballot_row : (E : Env) → Ballot → Proposal → User → Db E → Vote
ballot_row E b p u db = record {
  id = [];
  proposal_id = p.id;
  voter_id = u.id;
  vote = b.vote;
  voting_power = get_voting_power E b.voter db;
  reason = truthy b.reason;
}

module _ (E : Env) (b : Ballot) (db : Db E) {p : Proposal} {u : User}
    (found : proposal_by_id E b.proposal_id db ≡ some p)
    (voter : user_by_key E b.voter db ≡ some u) where
  cast_vote_steps :
      p.status ≡ active
      → vote_of E p.id u.id db ≡ none
      → cast_vote E b db
        ≡ (save_vote E (ballot_row E b p u db) >>= λ v. update_tally E p.id >> pure v) db
  unfolding cast_vote
  cast_vote_steps ready fresh = ground arith

  cast_vote_guards :
      {v : Vote} {db' : Db E}
      → cast_vote E b db ≡ (ok v, db')
      → (p.status ≡ active) × (vote_of E p.id u.id db ≡ none)
  unfolding cast_vote
  cast_vote_guards done = ground arith

  -- A registered voter's first vote on an active proposal is stored and the call throws all the same,
  -- if among the votes on the proposal, read back after the write, one for or against has a power that
  -- `BigInt` does not read.
  pub cast_vote_unread :
      {w v : Vote} {t : E.votes.Rows}
      → p.status ≡ active
      → vote_of E p.id u.id db ≡ none
      → E.votes.save (ballot_row E b p u db) db.votes ≡ some (w, t)
      → Memᴰ v (E.votes.find (λ v. text_eq v.proposal_id p.id) t)
      → counts v.vote ≡ true
      → bigint v.voting_power ≡ none
      → cast_vote E b db ≡ (err syntax_error, record db { votes = t })
  cast_vote_unread {w} {v} {t} ready fresh written m c h =
      let stored : save_vote E (ballot_row E b p u db) db ≡ (ok w, record db { votes = t }) =
        rw written in
      cast_vote_steps ready fresh
      ∙ (bind_step (save_vote E (ballot_row E b p u db)) (λ v. update_tally E p.id >> pure v) db
            stored
          ∙ bind_stop (update_tally E p.id) (λ _. pure w) (record db { votes = t })
              (update_tally_unread E (record db { votes = t }) p.id m c h))

module _ (E : Env) (read_back : Proposal → Proposal) (laws : ProposalLaws E.proposals read_back)
    (finds : FindsVotes E.votes) (b : Ballot) (db : Db E) {p : Proposal} {u : User}
    (found : proposal_by_id E b.proposal_id db ≡ some p)
    (voter : user_by_key E b.voter db ≡ some u) where
  -- On tables with the laws of proposals and of votes: once a call of a voter who is a user has
  -- returned a vote on a proposal, every further ballot of that voter on that proposal, from the
  -- database that the call left, is refused and changes nothing, whatever it says.
  pub cast_vote_once :
      {v : Vote} {db' : Db E}
      → cast_vote E b db ≡ (ok v, db')
      → (b' : Ballot) → b'.proposal_id ≡ b.proposal_id
      → b'.voter ≡ b.voter
      → cast_vote E b' db'
        ≡ (err (bad_request (codes "Voter has already cast a vote on this proposal")), db')
  cast_vote_once {v} {db'} done b' same_proposal same_voter =
      let (ready, fresh) = cast_vote_guards E b db found voter done in
      let row = ballot_row E b p u db in
      let (w, db₁, saved, rest) =
        bind_ok (save_vote E row) (λ v. update_tally E p.id >> pure v) db
          (sym (cast_vote_steps E b db found voter ready fresh) ∙ done) in
      let (t, written, after) = saved_ok _ (E.votes.save row db.votes) db saved in
      let (unit, db₂, tallied, last) = bind_ok (update_tally E p.id) (λ _. pure w) db₁ rest in
      let (tally, moved) = update_tally_inv E p.id db₁ tallied in
      let (s, updated, after') = moved in
      let before : E.proposals.update (λ q. text_eq q.id p.id) (tally_change tally) db.proposals
          ≡ some s =
        rw after at updated in
      let whole : db' ≡ record db { votes = t; proposals = s } =
        sym (ap (λ r. r.1) last)
        ∙ (after' ∙ ap {A = Db E} (λ d. record d { proposals = s }) after) in
      let (old, stored) = finds row w db.votes t written in
      let own_id = laws.found_id b.proposal_id db.proposals found in
      let here : proposal_by_id E p.id db ≡ some p =
        subst (λ i. proposal_by_id E i db ≡ some p) (sym own_id) found in
      let kept = laws.found-update p.id (tally_change tally) db.proposals (λ q. refl) before here in
      let same_id = laws.found_id p.id s kept in
      rw whole (
        cast_vote_again E b' (record db { votes = t; proposals = s })
          {p = read_back (tally_change tally p)} {u = u}
          (subst
            (λ i.
              E.proposals.find_one (λ q. text_eq q.id i) s
              ≡ some (read_back (tally_change tally p)))
            (own_id ∙ sym same_proposal) kept)
          (laws.keeps_status (tally_change tally p) ∙ ready)
          (subst (λ k. user_by_key E k db ≡ some u) (sym same_voter) voter)
          (subst
            (λ i.
              E.votes.find_one (λ v. text_eq v.proposal_id i && text_eq v.voter_id u.id) t
              ≡ some old)
            (sym same_id) stored))
