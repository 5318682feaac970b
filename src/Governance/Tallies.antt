-- ===== src/Governance/Tallies.antt =====
-- The tally of the votes on a proposal, and what finalizing does with it.
use soro_lend.Prelude.{◌≡◌, refl, ap, ◌∙◌, Bool, Option, none, some, List, [], ◌∷◌, arith}
use soro_lend.Prelude.Int.{ℤ, pos, ◌+ℤ◌, int_laws}
use soro_lend.Text.{Text, text_eq}
use soro_lend.Text.Decimal.{bigint, to_text}
use soro_lend.Runtime.{ok}
use soro_lend.Schema.{Vote, VoteType, for_it, against, abstain, Proposal, active}
use mathlib.Core.Path.{ap₂}
use soro_lend.Store.{
  ◌>>◌, bind_step, Env, Db, proposal_by_id, update_proposal, save_proposal, Table,
}
use soro_lend.Governance.{
  count_vote, count_votes, update_tally, verdict, get_proposal, finalize_proposal,
}
use soro_lend.Governance.Lifecycle.{finalize_lem, settled, closing}

-- What finalizing relies on in the table of proposals: a row that is found by its id has that id, and
-- an update is seen by the next read.
pub record ProposalLaws (T : Table Proposal) (read_back : Proposal → Proposal) : Type 0 where
  pub found_id :
      (i : Text) (t : T.Rows) {p : Proposal}
      → T.find_one (λ q. text_eq q.id i) t ≡ some p
      → p.id ≡ i
  pub found-update :
      (i : Text) (change : Proposal → Proposal) (t : T.Rows) {t' : T.Rows} {p : Proposal}
      → ((q : Proposal) → (change q).id ≡ q.id)
      → T.update (λ q. text_eq q.id i) change t ≡ some t'
      → T.find_one (λ q. text_eq q.id i) t ≡ some p
      → T.find_one (λ q. text_eq q.id i) t' ≡ some (read_back (change p))
  -- the columns give a status back as it was written
  pub keeps_status : (p : Proposal) → (read_back p).status ≡ p.status

-- Every vote that counts has a power that can be read.
abbrev pub Readable : List Vote → Type 0
Readable [] = Unit {0}
Readable (v ∷ vs) = ((z : ℤ) × (bigint v.voting_power ≡ some z)) × Readable vs

abbrev pub power_or_zero : Option ℤ → ℤ
power_or_zero none = pos 0
power_or_zero (some z) = z

abbrev pub weight : VoteType → VoteType → ℤ → ℤ
weight for_it for_it z = z
weight against against z = z
weight _ _ z = pos 0

-- The power of all votes of one kind.
unfoldable pub power_cast : VoteType → List Vote → ℤ
power_cast kind [] = pos 0
power_cast kind (v ∷ vs) =
    weight kind v.vote (power_or_zero (bigint v.voting_power)) +ℤ power_cast kind vs

pub get_proposal_found :
    (E : Env) (id : Text) (db : Db E) {p : Proposal}
    → proposal_by_id E id db ≡ some p
    → get_proposal E id db ≡ (ok p, db)
unfolding get_proposal
get_proposal_found E id db found = ground arith

finalize_active :
    (E : Env) (id : Text) (db : Db E) {p : Proposal}
    → proposal_by_id E id db ≡ some p
    → p.status ≡ active
    → finalize_proposal E id db ≡ (update_tally E p.id >> settled E id) db
finalize_active E id db found ready = ground (arith, finalize_lem E id db found)

+ℤ_zero : (z : ℤ) → z +ℤ pos 0 ≡ z
+ℤ_zero z = omega int_laws

+ℤ_assoc : (x y z : ℤ) → x +ℤ y +ℤ z ≡ x +ℤ (y +ℤ z)
+ℤ_assoc x y z = omega int_laws

module _ (E : Env) (db : Db E) where
  count_vote_lem :
      (yea nay z : ℤ) (v : Vote) (kind : VoteType)
      → bigint v.voting_power ≡ some z
      → count_vote E (yea, nay) v kind db
        ≡ (ok (yea +ℤ weight for_it kind z, nay +ℤ weight against kind z), db)
  unfolding count_vote
  count_vote_lem yea nay z v for_it e = ground (arith, +ℤ_zero yea, +ℤ_zero nay)
  count_vote_lem yea nay z v against e = ground (arith, +ℤ_zero yea, +ℤ_zero nay)
  count_vote_lem yea nay z v abstain e = ground (arith, +ℤ_zero yea, +ℤ_zero nay)

  -- The loop adds up the power of the votes for and of those against; abstentions count for nothing.
  count_votes-power_cast :
      (yea nay : ℤ) (vs : List Vote)
      → Readable vs
      → count_votes E (yea, nay) vs db
        ≡ (ok (yea +ℤ power_cast for_it vs, nay +ℤ power_cast against vs), db)
  unfolding count_votes power_cast
  count_votes-power_cast yea nay [] h = rw (+ℤ_zero yea, +ℤ_zero nay)
  count_votes-power_cast yea nay (v ∷ vs) ((z, e), h) =
      let yea' = yea +ℤ weight for_it v.vote z in
      let nay' = nay +ℤ weight against v.vote z in
      rw e (
        bind_step (count_vote E (yea, nay) v v.vote) (λ next. count_votes E next vs) db
          (count_vote_lem yea nay z v v.vote e)
        ∙ (count_votes-power_cast yea' nay' vs h
            ∙ ap₂ (λ y n. (ok (y, n), db))
                (+ℤ_assoc yea (weight for_it v.vote z) (power_cast for_it vs))
                (+ℤ_assoc nay (weight against v.vote z) (power_cast against vs))))

zero_+ℤ : (z : ℤ) → pos 0 +ℤ z ≡ z
zero_+ℤ z = omega int_laws

module _ (E : Env) (read_back : Proposal → Proposal) (laws : ProposalLaws E.proposals read_back)
    (id : Text) (db : Db E) where
  abbrev pub votes_on : List Vote
  votes_on = E.votes.find (λ v. text_eq v.proposal_id id) db.votes

  -- A proposal with the sums of its votes.
  abbrev pub tallied : Proposal → Proposal
  tallied p = record p {
    for_votes = to_text (power_cast for_it votes_on);
    against_votes = to_text (power_cast against votes_on);
  }

  abbrev row_of : Proposal → Bool
  row_of q = text_eq q.id id

  module _ (readable : Readable votes_on) {t : E.proposals.Rows}
      (updated : E.proposals.update row_of tallied db.proposals ≡ some t) where
    counted :
        count_votes E (pos 0, pos 0) votes_on db
        ≡ (ok (power_cast for_it votes_on, power_cast against votes_on), db)
    counted =
        count_votes-power_cast E db (pos 0) (pos 0) votes_on readable
        ∙ ap₂ (λ y n. (ok (y, n), db)) (zero_+ℤ (power_cast for_it votes_on))
            (zero_+ℤ (power_cast against votes_on))

    update_tally_lem : update_tally E id db ≡ (ok tt, record db { proposals = t })
    unfolding update_tally
    update_tally_lem =
        bind_step (count_votes E (pos 0, pos 0) votes_on)
          (λ tally.
            update_proposal E id
              (λ p. record p { for_votes = to_text tally.0; against_votes = to_text tally.1 }))
          db counted
        ∙ rw (updated, update_proposal)

    -- On a table with the laws of proposals, where every vote on an active proposal has a power
    -- that `BigInt` reads and the update is taken: finalizing writes the sums of the votes for and
    -- against, and then saves the proposal, as it reads it back, with the verdict on those sums.
    pub finalize_tally :
        {p : Proposal}
        → proposal_by_id E id db ≡ some p
        → p.status ≡ active
        → finalize_proposal E id db
          ≡ save_proposal E
              (record (read_back (tallied p)) { status = verdict E (read_back (tallied p)) })
              (record db { proposals = t })
    finalize_tally {p} found ready =
        let at_id : p.id ≡ id = laws.found_id id db.proposals found in
        let refreshed = laws.found-update id tallied db.proposals (λ q. refl) updated found in
        finalize_active E id db found ready
        ∙ (ap (λ i. (update_tally E i >> settled E id) db) at_id
            ∙ (bind_step (update_tally E id) (λ _. settled E id) db update_tally_lem
                ∙ bind_step (get_proposal E id) (closing E) (record db { proposals = t })
                    (get_proposal_found E id (record db { proposals = t }) refreshed)))
