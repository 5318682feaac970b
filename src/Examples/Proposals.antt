-- ===== src/Examples/Proposals.antt =====
-- Votes and proposals of the small world.
use soro_lend.Prelude.{◌++◌, map, filter, ◌≡◌, refl, none, some, List, [], ◌∷◌}
use soro_lend.Prelude.Int.{pos, ◌+ℤ◌}
use soro_lend.Text.{codes, text_eq}
use soro_lend.Text.Decimal.{bigint, to_text}
use soro_lend.Runtime.{syntax_error, ok, err, bad_request}
use soro_lend.Store.{Env, Db, user_by_key}
use soro_lend.Examples.World.{
  World, alice, proposal_laws, finds_votes, start, proposal, vote_of_bob, alice_found,
  proposal_found,
}
use soro_lend.Schema.{Proposal, Vote, for_it, against}
use soro_lend.Store.{save_proposal, proposal_by_id}
use soro_lend.Governance.{
  Ballot, cast_vote, finalize_proposal, verdict, get_voting_power, update_tally,
}
use mathlib.Core.List.{Memᴰ}
use soro_lend.Governance.Tallies.{power_cast, tallied, finalize_tally}
use soro_lend.Governance.Votes.{ballot_row, cast_vote_unread, cast_vote_once}

abbrev pub yea : Ballot
yea = record { proposal_id = codes "p1"; voter = codes "GA"; vote = for_it; reason = none }

abbrev nay : Ballot
nay = record yea { vote = against }

abbrev vote_of_alice : Vote
vote_of_alice = record {
  id = [];
  proposal_id = codes "p1";
  voter_id = codes "u1";
  vote = for_it;
  voting_power = codes "1";
  reason = none;
}

abbrev after_vote : Db World
after_vote = record start {
  votes = vote_of_bob ∷ vote_of_alice ∷ [];
  proposals = record proposal { for_votes = codes "6" } ∷ [];
}

vote_runs : cast_vote World yea start ≡ (ok vote_of_alice, after_vote)
unfolding cast_vote bigint to_text text_eq get_voting_power ◌+ℤ◌ update_tally
vote_runs = refl

cast_vote_once_example :
    cast_vote World nay after_vote
    ≡ (err (bad_request (codes "Voter has already cast a vote on this proposal")), after_vote)
cast_vote_once_example =
    cast_vote_once World (λ p. p) proposal_laws finds_votes yea start proposal_found alice_found
      {v = vote_of_alice} {db' = after_vote} vote_runs nay refl refl

-- The same world, with votes that the database gives back with 18 decimals.
abbrev with_decimals : Vote → Vote
with_decimals v = record v { voting_power = v.voting_power ++ codes ".000000000000000000" }

abbrev Decimals : Env
Decimals = record World {
  votes = record World.votes { find = λ p rs. filter p (map with_decimals rs) };
}

abbrev decimals_start : Db Decimals
decimals_start = record {
  users = start.users;
  assets = start.assets;
  supplies = start.supplies;
  borrows = start.borrows;
  collaterals = start.collaterals;
  liquidations = start.liquidations;
  snapshots = start.snapshots;
  feeds = start.feeds;
  proposals = start.proposals;
  votes = [];
}

found_by_id : proposal_by_id Decimals (codes "p1") decimals_start ≡ some proposal
unfolding text_eq
found_by_id = refl

found_by_key : user_by_key Decimals (codes "GA") decimals_start ≡ some alice
unfolding text_eq
found_by_key = refl

vote_row : ballot_row Decimals yea proposal alice decimals_start ≡ vote_of_alice
unfolding get_voting_power to_text text_eq
vote_row = refl

vote_written :
    Decimals.votes.save (ballot_row Decimals yea proposal alice decimals_start) decimals_start.votes
    ≡ some (vote_of_alice, vote_of_alice ∷ [])
vote_written = rw vote_row

vote_read_back :
    Memᴰ
      (with_decimals vote_of_alice)
      (Decimals.votes.find (λ v. text_eq v.proposal_id (codes "p1")) (vote_of_alice ∷ []))
unfolding text_eq
vote_read_back = Memᴰ.head refl

no_integer : bigint (with_decimals vote_of_alice).voting_power ≡ none
unfolding bigint
no_integer = refl

cast_vote_unread_example :
    cast_vote Decimals yea decimals_start
    ≡ (err syntax_error, record decimals_start { votes = vote_of_alice ∷ [] })
cast_vote_unread_example =
    cast_vote_unread Decimals yea decimals_start {p = proposal} {u = alice} found_by_id found_by_key
      {w = vote_of_alice} {v = with_decimals vote_of_alice} refl refl vote_written vote_read_back
      refl no_integer

abbrev counted : List Proposal
counted = record proposal { for_votes = codes "5" } ∷ []

five : bigint (codes "5") ≡ some (pos 5)
unfolding bigint
five = refl

tally_written :
    World.proposals.update
      (λ q. text_eq q.id (codes "p1"))
      (tallied World (λ p. p) proposal_laws (codes "p1") start)
      start.proposals
    ≡ some counted
unfolding text_eq bigint to_text power_cast ◌+ℤ◌
tally_written = refl

finalize_tally_example :
    finalize_proposal World (codes "p1") start
    ≡ save_proposal World
        (record (tallied World (λ p. p) proposal_laws (codes "p1") start proposal) {
          status = verdict World (tallied World (λ p. p) proposal_laws (codes "p1") start proposal);
        })
        (record start { proposals = counted })
unfolding text_eq
finalize_tally_example =
    finalize_tally World (λ p. p) proposal_laws (codes "p1") start ((pos 5, five), tt) {t = counted}
      tally_written {p = proposal} proposal_found refl
