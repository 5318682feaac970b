-- ===== src/Governance/Lifecycle.antt =====
-- The states of a proposal, and the moves that the service makes between them.
use soro_lend.Prelude.{
  ℕ, ◌≡◌, true, some, arith, Bool-cases, inl, inr, ◌⊎◌, sym, ◌∙◌, if◌then◌else◌,
}
use soro_lend.Text.{Text, codes}
use soro_lend.Runtime.{ok, err, bad_request}
use soro_lend.Schema.{Proposal, ProposalStatus, pending, active, succeeded, defeated, executed}
use soro_lend.Store.{
  Env, Db, Action, Table, proposal_by_id, save_proposal, saved_ok, bind_ok, ◌>>=◌, ◌>>◌,
}
use soro_lend.Governance.{
  status_eq, get_proposal, update_tally, verdict, activate_proposal, execute_proposal,
  finalize_proposal,
}

-- A saved proposal has the status that was written.
abbrev pub KeepsStatus : Table Proposal → Type 0
KeepsStatus T =
    (r r' : Proposal) (t t' : T.Rows) → T.save r t ≡ some (r', t') → r'.status ≡ r.status

-- Pending → Active → Succeeded or Defeated, and Succeeded → Executed.
infix 40 ◌⟶◌
pub data ◌⟶◌ : ProposalStatus → ProposalStatus → Type 0 where
  activate : pending ⟶ active
  succeed : active ⟶ succeeded
  defeat : active ⟶ defeated
  execute : succeeded ⟶ executed

-- The calls that give an existing proposal another status.
pub data Move : Type 0 where
  activation finalization : Move
  execution : ℕ → Move

module _ (E : Env) where
  abbrev pub move : Move → Text → Action E Proposal
  move activation id = activate_proposal E id
  move finalization id = finalize_proposal E id
  move (execution now) id = execute_proposal E now id

  pub verdict_cases : (p : Proposal) → (verdict E p ≡ succeeded) ⊎ (verdict E p ≡ defeated)
  unfolding verdict
  verdict_cases p = ground arith

  pub activate_lem :
      (id : Text) (db : Db E) {p : Proposal}
      → proposal_by_id E id db ≡ some p
      → activate_proposal E id db ≡ (
          if status_eq p.status pending
          then save_proposal E (record p { status = active }) db
          else (err (bad_request (codes "Only Pending proposals can be activated")), db))
  unfolding activate_proposal
  activate_lem id db found = ground arith

  pub execute_lem :
      (now : ℕ) (id : Text) (db : Db E) {p : Proposal}
      → proposal_by_id E id db ≡ some p
      → execute_proposal E now id db ≡ (
          if status_eq p.status succeeded
          then save_proposal E (record p { status = executed; executed_at = some now }) db
          else (err (bad_request (codes "Only Succeeded proposals can be executed")), db))
  unfolding execute_proposal
  execute_lem now id db found = ground arith

  -- The end of `finalizeProposal`, behind its guard.
  abbrev pub closing : Proposal → Action E Proposal
  closing refreshed = save_proposal E (record refreshed { status = verdict E refreshed })

  abbrev pub settled : Text → Action E Proposal
  settled id = get_proposal E id >>= closing

  pub finalize_lem :
      (id : Text) (db : Db E) {p : Proposal}
      → proposal_by_id E id db ≡ some p
      → finalize_proposal E id db ≡ (
          if status_eq p.status active
          then (update_tally E p.id >> settled id) db
          else (err (bad_request (codes "Only Active proposals can be finalized")), db))
  unfolding finalize_proposal
  finalize_lem id db found = ground arith

  pub status_sound : (s t : ProposalStatus) → status_eq s t ≡ true → s ≡ t
  status_sound s t h = ground arith

  module _ (keeps : KeepsStatus E.proposals) (id : Text) {q : Proposal} {db' : Db E} where
    saved_status :
        (r : Proposal) (db : Db E) → save_proposal E r db ≡ (ok q, db') → q.status ≡ r.status
    saved_status r db done =
        let (t, written, after) = saved_ok _ (E.proposals.save r db.proposals) db done in
        keeps r q db.proposals t written

    settled_status :
        (db : Db E) → settled id db ≡ (ok q, db') → (q.status ≡ succeeded) ⊎ (q.status ≡ defeated)
    settled_status db done =
        let (r, db₁, first, second) = bind_ok (get_proposal E id) closing db done in
        let same = saved_status (record r { status = verdict E r }) db₁ second in
        ground (arith, same, verdict_cases r)

    -- Where a saved proposal keeps the status that was written: an activation, a finalization or
    -- an execution that returns has moved the proposal along an edge of the diagram.
    pub move-⟶ :
        (m : Move) (db : Db E) {p : Proposal}
        → proposal_by_id E id db ≡ some p
        → move m id db ≡ (ok q, db')
        → p.status ⟶ q.status
    move-⟶ activation db {p} found done =
        let step = sym (activate_lem id db found) ∙ done in
        elim (Bool-cases (status_eq p.status pending)) [
          | inr other ↦ cc (rw other at step)
          | inl ready ↦
              rw
                (
                  status_sound p.status pending ready,
                  saved_status (record p { status = active }) db (rw ready at step),
                )
                activate
        ]
    move-⟶ (execution now) db {p} found done =
        let step = sym (execute_lem now id db found) ∙ done in
        elim (Bool-cases (status_eq p.status succeeded)) [
          | inr other ↦ cc (rw other at step)
          | inl ready ↦
              rw
                (
                  status_sound p.status succeeded ready,
                  saved_status (record p { status = executed; executed_at = some now }) db
                      (rw ready at step),
                )
                execute
        ]
    move-⟶ finalization db {p} found done =
        let step = sym (finalize_lem id db found) ∙ done in
        elim (Bool-cases (status_eq p.status active)) [
          | inr other ↦ cc (rw other at step)
          | inl ready ↦
              let (u, db₁, first, second) =
                bind_ok (update_tally E p.id) (λ _. settled id) db (rw ready at step) in
              rw (status_sound p.status active ready) (elim (settled_status db₁ second) [
                | inl won ↦ rw won succeed
                | inr lost ↦ rw lost defeat
              ])
        ]
