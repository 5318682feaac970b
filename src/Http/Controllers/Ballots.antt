-- ===== src/Http/Controllers/Ballots.antt =====
-- Requests of governance: they touch no position and no market.
use soro_lend.Prelude.{ℕ, List, [], ◌∷◌, ◌≡◌, refl, arith}
use soro_lend.Prelude.Int.{pos}
use soro_lend.Text.{Text, text_eq}
use soro_lend.Runtime.{Result, ok, err}
use soro_lend.Schema.{Vote, VoteType, for_it, against, abstain}
use soro_lend.Store.{Env, Db, update_proposal}
use soro_lend.Text.Decimal.{to_text}
use soro_lend.Governance
use soro_lend.Governance.{Tally, count_vote, count_votes, update_tally}
use soro_lend.Http.Controllers.{GovernanceRequest, serve_governance, proposal, vote}
use soro_lend.Http.Controllers.Reads.{governance_keeps, bind_keeps}
use soro_lend.Http.Controllers.Frame.{
  KeepsMarkets, KeepsPositions, reply-db, same-KeepsMarkets, same-KeepsPositions,
}

abbrev pub KeepsBoth : (E : Env) → Db E → Db E → Type 0
KeepsBoth E db db' = KeepsMarkets E db db' × KeepsPositions E db db'

module _ (E : Env) where
  same-KeepsBoth : (db db' : Db E) → db' ≡ db → KeepsBoth E db db'
  same-KeepsBoth db db' h = (same-KeepsMarkets E db db' h, same-KeepsPositions E db db' h)

  count_vote_keeps :
      (tally : Tally) (v : Vote) (kind : VoteType) (db : Db E)
      → (count_vote E tally v kind db).1 ≡ db
  unfolding count_vote
  count_vote_keeps tally v for_it db = ground arith
  count_vote_keeps tally v against db = ground arith
  count_vote_keeps tally v abstain db = refl

  pub count_votes_keeps :
      (tally : Tally) (vs : List Vote) (db : Db E) → (count_votes E tally vs db).1 ≡ db
  unfolding count_votes
  count_votes_keeps tally [] db = refl
  count_votes_keeps tally (v ∷ vs) db =
      bind_keeps E (count_vote E tally v v.vote) (λ next. count_votes E next vs) db
        (count_vote_keeps tally v v.vote db) (λ next. count_votes_keeps next vs db)

  create-KeepsBoth :
      (p : Governance.NewProposal) (db : Db E)
      → KeepsBoth E db (Governance.create_proposal E p db).1
  unfolding Governance.create_proposal
  create-KeepsBoth p db = ground arith

  activate-KeepsBoth :
      (id : Text) (db : Db E) → KeepsBoth E db (Governance.activate_proposal E id db).1
  unfolding Governance.activate_proposal
  activate-KeepsBoth id db = ground arith

  execute-KeepsBoth :
      (now : ℕ) (id : Text) (db : Db E) → KeepsBoth E db (Governance.execute_proposal E now id db).1
  unfolding Governance.execute_proposal
  execute-KeepsBoth now id db = ground arith

  tallied-KeepsBoth :
      (id : Text) (db : Db E) (o : Result Tally × Db E)
      → o.1 ≡ db
      → KeepsBoth E db
          (elim o.0 as (λ _. Result (Unit {0}) × Db E) [
            | ok tally ↦
                update_proposal E id
                  (λ p. record p { for_votes = to_text tally.0; against_votes = to_text tally.1 })
                  o.1
            | err e ↦ (err e, o.1)
          ]).1
  tallied-KeepsBoth id db (ok tally, db₁) h = ground arith
  tallied-KeepsBoth id db (err e, db₁) h = ground arith

  update_tally-KeepsBoth : (id : Text) (db : Db E) → KeepsBoth E db (update_tally E id db).1
  unfolding update_tally
  update_tally-KeepsBoth id db =
      let votes = E.votes.find (λ v. text_eq v.proposal_id id) db.votes in
      tallied-KeepsBoth id db (count_votes E (pos 0, pos 0) votes db)
        (count_votes_keeps (pos 0, pos 0) votes db)

  cast_vote-KeepsBoth :
      (b : Governance.Ballot) (db : Db E) → KeepsBoth E db (Governance.cast_vote E b db).1
  unfolding Governance.cast_vote
  cast_vote-KeepsBoth b db = grind (arith, update_tally-KeepsBoth)

  finalize-KeepsBoth :
      (id : Text) (db : Db E) → KeepsBoth E db (Governance.finalize_proposal E id db).1
  unfolding Governance.finalize_proposal
  finalize-KeepsBoth id db = grind (arith, update_tally-KeepsBoth)

  -- Each handler, whether its service returns or throws.
  pub governance-KeepsBoth :
      (now : ℕ) (r : GovernanceRequest) (db : Db E) → KeepsBoth E db (serve_governance E now r db).1
  unfolding serve_governance
  governance-KeepsBoth now GovernanceRequest.get_proposals db = same-KeepsBoth db db refl
  governance-KeepsBoth now (GovernanceRequest.get_proposal id) db =
      same-KeepsBoth db _ (governance_keeps E now (GovernanceRequest.get_proposal id) db refl)
  governance-KeepsBoth now (GovernanceRequest.create_proposal dto) db =
      rw (reply-db E proposal (Governance.create_proposal E dto db)) (create-KeepsBoth dto db)
  governance-KeepsBoth now (GovernanceRequest.cast_vote dto) db =
      rw (reply-db E vote (Governance.cast_vote E dto db)) (cast_vote-KeepsBoth dto db)
  governance-KeepsBoth now (GovernanceRequest.get_voting_power address) db =
      same-KeepsBoth db db refl
  governance-KeepsBoth now (GovernanceRequest.activate_proposal id) db =
      rw (reply-db E proposal (Governance.activate_proposal E id db)) (activate-KeepsBoth id db)
  governance-KeepsBoth now (GovernanceRequest.finalize_proposal id) db =
      rw (reply-db E proposal (Governance.finalize_proposal E id db)) (finalize-KeepsBoth id db)
  governance-KeepsBoth now (GovernanceRequest.execute_proposal id) db =
      rw (reply-db E proposal (Governance.execute_proposal E now id db))
        (execute-KeepsBoth now id db)
