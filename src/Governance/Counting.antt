-- ===== src/Governance/Counting.antt =====
-- What the tally of the votes leaves alone, and the votes that stop it.
use soro_lend.Prelude.{
  true, false, ◌≡◌, refl, ◌∙◌, Bool, none, some, Option-cases, ◌⊎◌, inl, inr, List, [], ◌∷◌, arith,
}
use soro_lend.Prelude.Int.{pos, ◌+ℤ◌}
use soro_lend.Text.{Text, text_eq}
use soro_lend.Text.Decimal.{bigint, to_text}
use soro_lend.Runtime.{ok, err, syntax_error}
use soro_lend.Schema.{Vote, VoteType, for_it, against, abstain, Proposal}
use mathlib.Core.List.{Memᴰ}
use soro_lend.Store.{bind_step, bind_stop, bind_ok, Env, Db, update_proposal}
use soro_lend.Governance.{Tally, count_vote, count_votes, update_tally}

module _ (E : Env) where
  count_vote-db :
      (tally tally' : Tally) (v : Vote) (kind : VoteType) (db db' : Db E)
      → count_vote E tally v kind db ≡ (ok tally', db')
      → db' ≡ db
  unfolding count_vote
  count_vote-db (y, n) tally' v for_it db db' done = ground arith
  count_vote-db (y, n) tally' v against db db' done = ground arith
  count_vote-db (y, n) tally' v abstain db db' done = ground arith

  -- Counting only reads.
  count_votes-db :
      (tally tally' : Tally) (vs : List Vote) (db db' : Db E)
      → count_votes E tally vs db ≡ (ok tally', db')
      → db' ≡ db
  unfolding count_votes
  count_votes-db tally tally' [] db db' done = ground arith
  count_votes-db tally tally' (v ∷ vs) db db' done =
      let (next, db₁, first, second) =
        bind_ok (count_vote E tally v v.vote) (λ n. count_votes E n vs) db done in
      count_votes-db next tally' vs db₁ db' second ∙ count_vote-db tally next v v.vote db db₁ first

  updated_ok :
      (id : Text) (change : Proposal → Proposal) (db : Db E) {db' : Db E}
      → update_proposal E id change db ≡ (ok tt, db')
      → (t : E.proposals.Rows) × (E.proposals.update (λ q. text_eq q.id id) change db.proposals
          ≡ some t)
        × (db' ≡ record db { proposals = t })
  updated_ok id change db done =
      elim (Option-cases (E.proposals.update (λ q. text_eq q.id id) change db.proposals)) [
        | inl refused ↦ ground arith
        | inr (t, e) ↦ (t, e, ground arith)
      ]

  -- A tally that returns has made one update of the proposal, which changes no status.
  pub update_tally_inv :
      (id : Text) (db : Db E) {db' : Db E}
      → update_tally E id db ≡ (ok tt, db')
      → (tally : Tally) × ((t : E.proposals.Rows) × (E.proposals.update
              (λ q. text_eq q.id id)
              (λ p. record p { for_votes = to_text tally.0; against_votes = to_text tally.1 })
              db.proposals
            ≡ some t)
          × (db' ≡ record db { proposals = t }))
  unfolding update_tally
  update_tally_inv id db {db'} done =
      let (tally, db₁, first, second) =
        bind_ok
          (count_votes E (pos 0, pos 0) (E.votes.find (λ v. text_eq v.proposal_id id) db.votes))
          (λ tally.
            update_proposal E id
              (λ p. record p { for_votes = to_text tally.0; against_votes = to_text tally.1 }))
          db done in
      let same =
        count_votes-db (pos 0, pos 0) tally (E.votes.find (λ v. text_eq v.proposal_id id) db.votes)
          db db₁ first in
      (tally, updated_ok id _ db (rw same at second))

-- A vote that the tally reads the power of.
abbrev pub counts : VoteType → Bool
counts for_it = true
counts against = true
counts abstain = false

module _ (E : Env) (db : Db E) where
  count_vote_cases :
      (tally : Tally) (v : Vote) (kind : VoteType)
      → ((next : Tally) × (count_vote E tally v kind db ≡ (ok next, db)))
        ⊎ (count_vote E tally v kind db ≡ (err syntax_error, db))
  unfolding count_vote
  count_vote_cases (y, n) v for_it = elim (Option-cases (bigint v.voting_power)) [
    | inl unread ↦ inr (rw unread)
    | inr (z, read) ↦ inl ((y +ℤ z, n), rw read)
  ]
  count_vote_cases (y, n) v against = elim (Option-cases (bigint v.voting_power)) [
    | inl unread ↦ inr (rw unread)
    | inr (z, read) ↦ inl ((y, n +ℤ z), rw read)
  ]
  count_vote_cases tally v abstain = inl (tally, refl)

  count_vote_unread :
      (tally : Tally) (v : Vote) (kind : VoteType)
      → counts kind ≡ true
      → bigint v.voting_power ≡ none
      → count_vote E tally v kind db ≡ (err syntax_error, db)
  unfolding count_vote
  count_vote_unread (y, n) v for_it c h = rw h
  count_vote_unread (y, n) v against c h = rw h
  count_vote_unread tally v abstain c h = cc

  count_votes_unread :
      (tally : Tally) (vs : List Vote) {v : Vote}
      → Memᴰ v vs
      → counts v.vote ≡ true
      → bigint v.voting_power ≡ none
      → count_votes E tally vs db ≡ (err syntax_error, db)
  unfolding count_votes
  count_votes_unread tally [] m c h = elim m [ ]
  count_votes_unread tally (x ∷ vs) {v} (Memᴰ.head same) c h =
      bind_stop (count_vote E tally x x.vote) (λ next. count_votes E next vs) db
        (rw (← same) (count_vote_unread tally v v.vote c h))
  count_votes_unread tally (x ∷ vs) (Memᴰ.tail m) c h = elim (count_vote_cases tally x x.vote) [
    | inl (next, e) ↦
        bind_step (count_vote E tally x x.vote) (λ next. count_votes E next vs) db e
        ∙ count_votes_unread next vs m c h
    | inr e ↦ bind_stop (count_vote E tally x x.vote) (λ next. count_votes E next vs) db e
  ]

  -- One vote for or against with a power that `BigInt` does not read stops the tally.
  pub update_tally_unread :
      (id : Text) {v : Vote}
      → Memᴰ v (E.votes.find (λ v. text_eq v.proposal_id id) db.votes)
      → counts v.vote ≡ true
      → bigint v.voting_power ≡ none
      → update_tally E id db ≡ (err syntax_error, db)
  unfolding update_tally
  update_tally_unread id m c h =
      bind_stop
        (count_votes E (pos 0, pos 0) (E.votes.find (λ v. text_eq v.proposal_id id) db.votes))
        (λ tally.
          update_proposal E id
            (λ p. record p { for_votes = to_text tally.0; against_votes = to_text tally.1 }))
        db
        (count_votes_unread (pos 0, pos 0) (E.votes.find (λ v. text_eq v.proposal_id id) db.votes) m
          c h)
