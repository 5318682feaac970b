-- ===== src/System/Proposals.antt =====
-- Steps of GovernanceService that move proposals along the edges of their states at most.
pub mod Edges
pub mod Ballots
pub mod Others
use soro_lend.Prelude.{
  ℕ, ◌+◌, ◌≡◌, refl, sym, ◌∙◌, ◌⊎◌, inl, inr, arith, Bool, true, false, not, Option, none, some,
  List, [], Bool-cases, Option-cases, if◌then◌else◌,
}
use soro_lend.Prelude.Int.{pos}
use soro_lend.Text.{Text, text_eq, is_truthy, truthy, codes}
use soro_lend.Text.Decimal.{to_text}
use soro_lend.Runtime.{Error, Result, ok, err, bad_request}
use soro_lend.Schema.{
  Proposal, ProposalStatus, pending, active, succeeded, defeated, executed, Vote, User,
}
use soro_lend.Store.{
  Env, Db, Action, ◌>>=◌, ◌>>◌, pure, proposal_by_id, save_proposal, update_proposal, save_vote,
  bind_step, bind_stop, gets, raise_if,
}
use soro_lend.Accounts.{find_or_create_user, find_or_create_user-cases}
use soro_lend.Governance.{
  Tally, max_id, get_voting_power, count_votes, update_tally, get_proposal, cast_vote,
  create_proposal, activate_proposal, finalize_proposal, execute_proposal, verdict, status_eq,
  Ballot, NewProposal, vote_of, voted,
}
use soro_lend.Governance.Lifecycle.{
  ◌⟶◌, activate, succeed, defeat, execute, activate_lem, execute_lem, finalize_lem, settled,
  closing, verdict_cases, status_sound,
}
use soro_lend.Governance.Tallies.{get_proposal_found}
use soro_lend.Governance.History.{
  ◌⟶*◌, stays, moves, StatusLaws, Advances, same-Advances, Advances-trans, create-Advances,
  save-Advances, update-keeps,
}
use soro_lend.Http.Controllers.Reads.{get_proposal_keeps}
use soro_lend.Http.Controllers.Ballots.{count_votes_keeps}

-- Every proposal is still there, in the state that it was in.
abbrev pub KeepsStates : (E : Env) → Db E → Db E → Type 0
KeepsStates E db db' =
    (i : Text) (p : Proposal)
    → proposal_by_id E i db ≡ some p
    → (p' : Proposal) × (proposal_by_id E i db' ≡ some p') × (p'.status ≡ p.status)

module _ (E : Env) where
  pub states_advance :
      (db db' : Db E) → KeepsStates E db db' → Advances E.proposals db.proposals db'.proposals
  states_advance db db' keeps i p truthy found =
      let (p', there, same) = keeps i p found in (p', there, rw same stays)

  pub unmoved : (db db' : Db E) → db' ≡ db → Advances E.proposals db.proposals db'.proposals
  unmoved db db' h = rw h (same-Advances E.proposals db.proposals db.proposals refl)

  -- A step that moves proposals along the edges at most, from any database.
  abbrev pub Advancing : {A : Type 0} → Action E A → Type 0
  Advancing m = (db : Db E) → Advances E.proposals db.proposals (m db).1.proposals

  after-Advances :
      {A B : Type 0} (db : Db E) (o : Result A × Db E) (f : A → Action E B)
      → Advances E.proposals db.proposals o.1.proposals
      → ((a : A) → Advancing (f a))
      → Advances E.proposals db.proposals
          (elim o.0 as (λ _. Result B × Db E) [ ok a ↦ f a o.1 | err e ↦ (err e, o.1) ]).1.proposals
  after-Advances db (ok a, db₁) f first next =
      Advances-trans E.proposals db.proposals db₁.proposals (f a db₁).1.proposals first (next a db₁)
  after-Advances db (err e, db₁) f first next = first

  pub bind-Advancing :
      {A B : Type 0} (m : Action E A) (f : A → Action E B)
      → Advancing m
      → ((a : A) → Advancing (f a))
      → Advancing (m >>= f)
  bind-Advancing m f first next db = after-Advances db (m db) f (first db) next

  pub gets-Advancing : {A : Type 0} (f : Db E → A) → Advancing (gets f)
  gets-Advancing f db = unmoved db db refl

  pub raise_if-Advancing : (c : Bool) (e : Error) → Advancing (raise_if c e)
  raise_if-Advancing c e db = unmoved db db refl

  pub get_proposal-Advancing : (id : Text) → Advancing (get_proposal E id)
  get_proposal-Advancing id db = unmoved db _ (get_proposal_keeps E id db)

module _ (E : Env) {read_back : Proposal → Proposal} (laws : StatusLaws E.proposals read_back) where
  update_proposal-KeepsStates :
      (id : Text) (change : Proposal → Proposal) (db : Db E)
      → ((q : Proposal) → (change q).id ≡ q.id)
      → ((q : Proposal) → (change q).status ≡ q.status)
      → KeepsStates E db (update_proposal E id change db).1
  update_proposal-KeepsStates id change db same_id same_status i p found =
      elim (Option-cases (E.proposals.update (λ q. text_eq q.id id) change db.proposals)) [
        | inl refused ↦ rw (refused, update_proposal) (p, found, refl)
        | inr (t, written) ↦
            rw (written, update_proposal)
              (update-keeps E.proposals laws id change db.proposals same_id same_status written i p
                found)
      ]

  tallied-KeepsStates :
      (id : Text) (db : Db E) (o : Result Tally × Db E)
      → o.1 ≡ db
      → KeepsStates E db
          (elim o.0 as (λ _. Result (Unit {0}) × Db E) [
            | ok tally ↦
                update_proposal E id
                  (λ p. record p { for_votes = to_text tally.0; against_votes = to_text tally.1 })
                  o.1
            | err e ↦ (err e, o.1)
          ]).1
  tallied-KeepsStates id db (ok tally, db₁) h i p found = rw h (
      update_proposal-KeepsStates id
        (λ p. record p { for_votes = to_text tally.0; against_votes = to_text tally.1 }) db
        (λ q. refl) (λ q. refl) i p found)
  tallied-KeepsStates id db (err e, db₁) h i p found = rw h (p, found, refl)

  pub update_tally-KeepsStates : (id : Text) (db : Db E) → KeepsStates E db (update_tally E id db).1
  unfolding update_tally
  update_tally-KeepsStates id db =
      let votes = E.votes.find (λ v. text_eq v.proposal_id id) db.votes in
      tallied-KeepsStates id db (count_votes E (pos 0, pos 0) votes db)
        (count_votes_keeps E (pos 0, pos 0) votes db)

  -- A row that was found is written with a state that an edge leads to, if the database takes it.
  pub saved-Advances :
      (id : Text) (p r : Proposal) (db : Db E)
      → proposal_by_id E id db ≡ some p
      → is_truthy id ≡ true
      → r.id ≡ p.id
      → p.status ⟶ r.status
      → Advances E.proposals db.proposals (save_proposal E r db).1.proposals
  saved-Advances id p r db found truthy same edge =
      elim (Option-cases (E.proposals.save r db.proposals)) [
        | inl refused ↦ rw refused (same-Advances E.proposals db.proposals db.proposals refl)
        | inr ((r', t), written) ↦
            rw written
              (save-Advances E.proposals laws id p r db.proposals found truthy same edge written)
      ]
